-- ===== src/Connection/Write.antt =====
-- connection.go: `writeSingleFrame`, `Dispatch` and `DispatchReader`. Each call is one step: it holds
-- `writeLock` while it writes, where the source does.
pub mod Frames
pub mod Wire
pub mod Streamed
pub mod Numbered
pub mod Failing
use webson.Common.{
  ℕ, zero, suc, ◌+◌, ◌≡◌, Bool, true, false, not, ◌&&◌, if◌then◌else◌, ◌==◌, List, [], ◌∷◌, ◌++◌,
  Option, none, some, flatten, map,
}
use webson.Errors.{
  Error, eof, write_after_close, cant_write_yet, io_error, Status, status_eq, status_closed,
  status_ready, Result, ok, err,
}
use webson.Message.{Message, MessageType, no_send, no_receive, spawn_vessel, MsgConfig}
use webson.Message.Assemble.{Flate, assemble}
use webson.Message.Split.{split}
use webson.Connection.{Connection}
use webson.Connection.Streams.{
  Patched, patched, refused, blocks, patch_msg, release_id, send_config,
}

-- The result of writing one frame; `write_blocks` waits for ever for `streamIdLock`.
pub data Written : Type 0 where
  written : Option Error → Message → Connection → Written
  write_blocks : Written

-- `io.Copy(con.rawConnection, &m.entity)`.
unfoldable pub write_raw : Message → Connection → Written
write_raw m con = if con.raw_closed then written (some (io_error 0)) m con else elim con.raw_error [
  | some e ↦ written (some e) m con
  | none ↦
      written none (record m { entity = [] }) (record con { wire = con.wire ++ (m.entity ∷ []) })
]

-- The last frame of a stream gives its id back.
unfoldable pub write_assembled : Message → Connection → Written
unfolding write_raw
write_assembled m con =
    if m.send.streamlize && m.is_complete
    then (if con.stream_id_locked
        then write_blocks
        else write_raw m
            (record con { in_use_streams = release_id m.send.stream_id con.in_use_streams }))
    else write_raw m con

unfoldable pub status_error : Status → Option Error
status_error status =
    if status_eq status status_closed
    then some write_after_close
    else if status_eq status status_ready
    then none
    else some (cant_write_yet status)

unfoldable pub draw : Message → Connection → Connection
draw m con = if m.send.do_mask then record con { drawn = con.drawn + 1 } else con

unfoldable pub write_single_frame : Flate → Message → Connection → Written
unfolding status_error draw write_assembled
write_single_frame f m con = elim (status_error con.status) [
  | some e ↦ written (some e) m con
  | none ↦ elim (assemble f (con.entropy con.drawn) m) [
    | err e ↦ written (some e) m con
    | ok m' ↦ write_assembled m' (draw m con)
  ]
]

-- The result of a dispatch, with what it leaves in the caller's slice.
pub data Dispatched : Type 0 where
  dispatched : Option Error → List ℕ → Connection → Dispatched
  dispatch_blocks : Dispatched

abbrev pub prepend : List ℕ → Dispatched → Dispatched
prepend p (dispatched e q con) = dispatched e (p ++ q) con
prepend p dispatch_blocks = dispatch_blocks

-- After a frame: an error ends the loop, with the frames behind it not touched.
abbrev pub after_written : List Message → (Connection → Dispatched) → Written → Dispatched
after_written ms rest write_blocks = dispatch_blocks
after_written ms rest (written (some e) m' con') =
    dispatched (some e) (m'.payload ++ flatten (map (λ x. x.payload) ms)) con'
after_written ms rest (written none m' con') = prepend m'.payload (rest con')

unfoldable pub write_frames : Flate → List Message → Connection → Dispatched
write_frames f [] con = dispatched none [] con
write_frames f (m ∷ ms) con =
    after_written ms (λ con'. write_frames f ms con') (write_single_frame f m con)

abbrev pub new_message : MessageType → List ℕ → Connection → Message
new_message t p con = record {
  send = no_send;
  receive = no_receive;
  config = send_config con;
  is_complete = false;
  mask = [];
  entity = [];
  payload = p;
  msg_type = t;
}

abbrev pub send_patched : Flate → List ℕ → Patched → Dispatched
send_patched f p blocks = dispatch_blocks
send_patched f p (refused e m con) = dispatched (some e) p con
send_patched f p (patched m con) = write_frames f (split m con.config.chunk_size) con

unfoldable pub dispatch : Flate → MessageType → List ℕ → Connection → Dispatched
dispatch f t p con = send_patched f p (patch_msg (new_message t p con) con)

-- An io.Reader: the chunks that it returns with no error, then the last one and its error.
pub record Source : Type 0 where
  pub reads : List (List ℕ)
  pub last : List ℕ
  pub ending : Error

abbrev pub is_eof : Error → Bool
is_eof eof = true
is_eof _ = false

abbrev pub vessel : Message → Bool → Bool → List ℕ → Message
vessel m complete cancel payload = record v {
  send = record send { cancel_stream = cancel };
  is_complete = complete;
  payload = payload;
}
  where
    v : Message
    v = spawn_vessel m

    open v use {send}

-- The last read: at the end of the input the message is complete, at any other error it is cancelled.
unfoldable pub write_last : Flate → Message → List ℕ → Error → Connection → Dispatched
unfolding spawn_vessel
write_last f m last ending con =
    if is_eof ending
    then elim (write_single_frame f (vessel m true m.send.cancel_stream last) con) [
      | write_blocks ↦ dispatch_blocks
      | written e m' con' ↦ dispatched e [] con'
    ]
    else elim (write_single_frame f (vessel m false true last) con) [
      | write_blocks ↦ dispatch_blocks
      | written (some e) m' con' ↦ dispatched (some e) [] con'
      | written none m' con' ↦ dispatched (some ending) [] con'
    ]

unfoldable pub read_and_write :
    Flate → Message → List (List ℕ) → List ℕ → Error → Connection → Dispatched
unfolding write_last spawn_vessel
read_and_write f m [] last ending con = write_last f m last ending con
read_and_write f m (chunk ∷ reads) last ending con =
    elim (write_single_frame f (vessel m false m.send.cancel_stream chunk) con) [
      | write_blocks ↦ dispatch_blocks
      | written (some e) m' con' ↦ dispatched (some e) [] con'
      | written none m' con' ↦ read_and_write f m reads last ending con'
    ]

-- The error of `patchMsg` is dropped here, and the message goes on with the stream id 0.
unfoldable pub dispatch_reader : Flate → MessageType → Source → Connection → Dispatched
unfolding read_and_write
dispatch_reader f t s con = elim (patch_msg (new_message t [] con) con) [
  | blocks ↦ dispatch_blocks
  | refused e m con' ↦ read_and_write f m s.reads s.last s.ending con'
  | patched m con' ↦ read_and_write f m s.reads s.last s.ending con'
]
