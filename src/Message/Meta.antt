-- ===== src/Message/Meta.antt =====
-- message.go: `parseMeta`, the two bytes in front of every frame.
pub mod Rules
pub mod Header
use webson.Common.{
  ℕ, ◌≡◌, Bool, true, false, not, ◌&&◌, if◌then◌else◌, leb, ltb, ◌==◌, bit_and, List, [], Option,
  none, some, codes,
}
use webson.Message.{Message, CloseCode, stream_bytes}

-- const of message.go: the codes that `parseMeta` sends.
abbrev pub protocol_error : ℕ
protocol_error = 1002

abbrev pub message_too_big : ℕ
message_too_big = 1009

unfoldable pub has_bit : ℕ → ℕ → Bool
has_bit byte bit = not (bit_and byte bit == 0)

-- The guards in front of the assignments, in their order.
unfoldable pub meta_guard : Message → ℕ → ℕ → Option CloseCode
unfolding has_bit
meta_guard m b0 b1 =
    let msg_type = bit_and b0 0b0000_1111 in
    let fin = has_bit b0 0b1000_0000 in
    let size = bit_and b1 0b0111_1111 in
    if leb 8 msg_type && not fin
    then some (record { code = protocol_error; reason = codes "control frame is not complete" })
    else if leb 8 msg_type && ltb 125 size
    then some (record { code = message_too_big; reason = codes "control frame is too large" })
    else if (msg_type == 0) && fin
    then some (record { code = protocol_error; reason = codes "unrecognized fin or continue" })
    else if has_bit b0 0b0100_0000 && not m.config.negotiate.compressable
    then some (record { code = protocol_error; reason = codes "unrecognized rsv1" })
    else if has_bit b0 0b0010_0000 && not m.config.negotiate.streamable
    then some (record { code = protocol_error; reason = codes "unrecognized rsv2" })
    else if has_bit b0 0b0001_0000
    then some (record { code = protocol_error; reason = codes "unrecognized rsv3" })
    else if m.receive.is_from_client && not (has_bit b1 0b1000_0000)
    then some (record { code = protocol_error; reason = codes "client msg is not masked" })
    else none

-- The assignments.
unfoldable pub meta_fields : Message → ℕ → ℕ → Message
unfolding has_bit
meta_fields m b0 b1 = record m {
  msg_type = bit_and b0 0b0000_1111;
  is_complete = has_bit b0 0b1000_0000;
  receive = record receive {
    compressed = has_bit b0 0b0100_0000;
    is_stream = has_bit b0 0b0010_0000;
    masked = has_bit b1 0b1000_0000;
    size = bit_and b1 0b0111_1111;
  };
}
  where
    open m use {receive}

-- The last guard stands behind the assignments.
unfoldable pub check_stream_size : Message → Option CloseCode
check_stream_size m =
    if m.receive.is_stream && ltb m.receive.size stream_bytes
    then some
        (record { code = protocol_error; reason = codes "msg size too small to contain stream id" })
    else none

-- `none` is a header that is accepted.
unfoldable pub parse_meta : Message → ℕ → ℕ → Option CloseCode × Message
parse_meta m b0 b1 = elim (meta_guard m b0 b1) [
  | some c ↦ (some c, m)
  | none ↦ let m' = meta_fields m b0 b1 in (check_stream_size m', m')
]
