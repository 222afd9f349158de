-- ===== src/Connection/Receive.antt =====
-- connection.go: one round of the loop of `Start`, which reads a frame and hands it on.
pub mod Total
pub mod Header
pub mod Steps
pub mod Payload
pub mod Frame
pub mod Reassembly
pub mod Unfinished
pub mod Isolation
use webson.Common.{
  ℕ, zero, suc, ◌+◌, ◌^◌, ◌≡◌, Bool, true, false, not, ◌&&◌, if◌then◌else◌, ltb, ◌==◌, bit_and,
  List, [], ◌∷◌, ◌++◌, Option, none, some, length, take, drop,
}
use webson.Common.Words.{big_endian}
use webson.Errors.{Error, new_error, msg_too_large, except_eof}
use webson.Message.{
  Message, CloseCode, MsgConfig, no_send, no_receive, is_control, close_message, stream_bytes,
}
use webson.Message.Mask.{set_mask, mask_payload}
use webson.Message.Meta.{parse_meta, has_bit}
use webson.Message.Collect.{merge}
use webson.Config.{Config}
use webson.Connection.{Connection, lookup, insert, delete}
use webson.Connection.Events.{trigger_message}
use webson.Reader
use webson.Reader.{Reader}

-- Why the loop ends: `Start` returns an error or nil; the header was refused, and a close frame is
-- sent first; or the slice of a payload is out of range, and Go panics, after it
-- may have dropped the message of a stream.
pub data Stop : Type 0 where
  returns : Option Error → Stop
  malformed : CloseCode → Stop
  panics : Option ℕ → Stop

pub data Try {ℓ} (A : Type ℓ) : Type ℓ where
  done : A → Try A
  stop : Stop → Try A

infixl 5 ◌>>=◌
abbrev pub ◌>>=◌ {ℓ κ} : {A : Type ℓ} {B : Type κ} → Try A → (A → Try B) → Try B
done a >>= f = f a
stop s >>= f = stop s

abbrev pub vessel_result :
    ℕ → (Option Error → Option Error) → List ℕ × Option Error × Reader → Try (List ℕ × Reader)
vessel_result n failure (bytes, some x, r) = stop (returns (failure (some x)))
vessel_result n failure (bytes, none, r) =
    if length bytes == n then done (bytes, r) else stop (returns (failure none))

-- `if s, e := reader.Read(vessel); e != nil || s != n { return … }`, where the error that is returned
-- may depend on `e`.
unfoldable pub read_vessel : ℕ → (Option Error → Option Error) → Reader → Try (List ℕ × Reader)
read_vessel n failure r = vessel_result n failure (Reader.read n r)

abbrev pub size_missing : Option Error → Option Error
size_missing cause = some (new_error "msg size not given")

abbrev pub key_missing : Option Error → Option Error
key_missing cause = some (new_error "mask key not given")

unfoldable pub incoming : Connection → ℕ → Message
incoming con now = record {
  send = no_send;
  receive = record no_receive { is_from_client = not con.is_client; created_at = now };
  config = record {
    negotiate = con.nego;
    extra_mask = con.config.private_mask;
    trigger_on_start = con.config.trigger_on_start;
    synchronized = con.config.synchronize;
  };
  is_complete = false;
  mask = [];
  entity = [];
  payload = [];
  msg_type = 0;
}

unfoldable pub with_size : Message → ℕ → Message
with_size m n = record m { receive = record receive { size = n } }
  where
    open m use {receive}

-- `int64(…)` of a size from 2^63 on is negative, and is treated like a size of 0.
unfoldable pub int64 : ℕ → ℕ
int64 n = if ltb n (2 ^ 63) then n else 0

-- An extended size of `n` bytes.
unfoldable pub read_extended : ℕ → Message → Reader → Try (Message × Reader)
unfolding read_vessel with_size int64
read_extended n m r = do
  (bytes, r') ← read_vessel n size_missing r
  done (with_size m (int64 (big_endian bytes)), r')

unfoldable pub read_size : Message → Reader → Try (Message × Reader)
unfolding read_extended
read_size m r =
    if m.receive.size == 126
    then read_extended 2 m r
    else if m.receive.size == 127
    then read_extended 8 m r
    else done (m, r)

unfoldable pub read_key : Message → Reader → Try (Message × Reader)
unfolding read_vessel
read_key m r = do (bytes, r') ← read_vessel 4 key_missing r; done (set_mask m bytes, r')

unfoldable pub read_mask : Message → Reader → Try (Message × Reader)
unfolding read_key
read_mask m r = if m.receive.masked then read_key m r else done (m, r)

unfoldable pub with_stream_id : Message → ℕ → Message
with_stream_id m i = record m { receive = record receive { stream_id = i } }
  where
    open m use {receive}

-- The stream of the two bytes `b0` and `b1`: a flag that cancels it, and its id.
unfoldable pub stream_of : ℕ → ℕ → Try (ℕ × Bool)
unfolding has_bit
stream_of b0 b1 =
    let i = big_endian (bit_and b0 0b0111_1111 ∷ b1 ∷ []) in
    if i == 0
    then stop (returns (some (new_error "invalid stream id")))
    else done (i, has_bit b0 0b1000_0000)

-- A payload of one byte, which only an extended size can announce: its slice of two bytes takes in
-- what stands behind it in the buffer, and is out of range if the buffer ends there; the slice from
-- the third byte on is always out of range.
unfoldable pub read_short : Option ℕ → ℕ → Try (Message × Bool × List ℕ)
unfolding stream_of
read_short none b = stop (panics none)
read_short (some next) b = do
  (i, cancel) ← stream_of b next
  stop (panics (if cancel then some i else none))

-- What follows the two bytes is the payload.
unfoldable pub read_stream : Option ℕ → Message → List ℕ → Try (Message × Bool × List ℕ)
unfolding with_stream_id stream_of read_short
read_stream next m [] = stop (panics none)
read_stream next m (b ∷ []) = read_short next b
read_stream next m (b0 ∷ b1 ∷ payload) = do
  (i, cancel) ← stream_of b0 b1
  done (with_stream_id m i, cancel, payload)

unfoldable pub store : Message × Bool × List ℕ → Message × Bool
store (m, cancel, payload) = (record m { entity = m.entity ++ payload }, cancel)

unfoldable pub unmask : Message → List ℕ → List ℕ
unmask m payload = if m.receive.masked then mask_payload m payload else payload

unfoldable pub open_payload : Option ℕ → Message → List ℕ → Try (Message × Bool)
open_payload next m payload =
    if m.receive.is_stream
    then read_stream next m (unmask m payload) >>= (λ opened. done (store opened))
    else done (store (m, false, unmask m payload))

abbrev pub payload_result : Message → List ℕ × Option Error × Reader → Try (Message × Bool × Reader)
payload_result m (payload, some x, r) = stop (returns (except_eof (some x)))
payload_result m (payload, none, r) =
    open_payload (Reader.next_byte r) m payload
    >>= (λ (m', cancel). done (m', cancel, Reader.discard (length payload) r))

-- `Peek` and `Discard`: the payload must fit the buffer of the reader.
unfoldable pub take_payload : Message → Reader → Try (Message × Bool × Reader)
take_payload m r = payload_result m (Reader.peek m.receive.size r)

unfoldable pub read_payload : ℕ → Message → Reader → Try (Message × Bool × Reader)
read_payload limit m r =
    if m.receive.size == 0
    then done (m, false, r)
    else if not (limit == 0) && ltb limit m.receive.size
    then stop (returns (some msg_too_large))
    else take_payload m r

abbrev pub meta_result : Option CloseCode × Message → Try Message
meta_result (some c, m) = stop (malformed c)
meta_result (none, m) = done m

-- `vessel2[0]` and `vessel2[1]`.
unfoldable pub read_meta : Message → List ℕ → Try Message
read_meta m [] = stop (panics none)
read_meta m (b ∷ []) = stop (panics none)
read_meta m (b0 ∷ b1 ∷ bs) = meta_result (parse_meta m b0 b1)

unfoldable pub read_frame : Connection → ℕ → Reader → Try (Message × Bool × Reader)
read_frame con now r = do
  (header, r1) ← read_vessel 2 except_eof r
  m1 ← read_meta (incoming con now) header
  (m2, r2) ← read_size m1 r1
  (m3, r3) ← read_mask m2 r2
  read_payload con.config.max_payload_size m3 r3

-- What happens to a frame that has been read. The Boolean says that the loop ends, with nil.
unfoldable pub cancel_stream : Message → Bool → Connection → Connection
cancel_stream m cancel con =
    if cancel
    then record con { pending_streams = delete m.receive.stream_id con.pending_streams }
    else con

unfoldable pub deliver_data : Message → Connection → Connection
unfolding lookup insert delete
deliver_data m con =
    let start = con.config.trigger_on_start in
    let i = m.receive.stream_id in
    elim (lookup i con.pending_streams) [
      | some pending ↦
          let merged = merge pending m in
          if m.is_complete
          then (let con' = if start then con else trigger_message merged con in
              record con' { pending_streams = delete i con.pending_streams })
          else record con { pending_streams = insert i merged con.pending_streams }
      | none ↦
          if m.is_complete
          then trigger_message m con
          else (let con' = record con { pending_streams = insert i m con.pending_streams } in
              if start then trigger_message m con' else con')
    ]

unfoldable pub deliver : Message → Bool → Connection → Connection × Bool
unfolding cancel_stream deliver_data
deliver m cancel con =
    let con' = cancel_stream m cancel con in
    if is_control m
    then (trigger_message m con', m.msg_type == close_message)
    else (deliver_data m con', false)
