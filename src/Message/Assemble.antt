-- ===== src/Message/Assemble.antt =====
-- message.go: `assemble` writes one frame. compress/flate is a parameter: the bytes of a flushed
-- writer, or none for a level that it refuses, and what its reader gives back.
pub mod Shape
use webson.Common.{
  ℕ, zero, suc, ◌+◌, ◌-◌, ◌%◌, ◌^◌, ◌≡◌, Bool, true, false, not, ◌&&◌, ◌||◌, if◌then◌else◌, leb,
  ltb, bit_or, List, [], ◌∷◌, ◌++◌, Option, none, some, length, take, replicate,
}
use webson.Common.Words.{put_uint16, put_uint64}
use webson.Errors.{Error, new_error, Result, ok, err, ◌>>=◌}
use webson.Message.{Message, MsgSendOptions, is_control}
use webson.Message.Mask.{set_mask, mask_payload}

pub record Flate : Type 0 where
  pub deflate : ℕ → List ℕ → Option (List ℕ)
  pub inflate : List ℕ → List ℕ × Option Error

-- `copy(dst, src)`.
unfoldable pub overwrite : List ℕ → List ℕ → List ℕ
overwrite [] src = []
overwrite (d ∷ dst) [] = d ∷ dst
overwrite (d ∷ dst) (s ∷ src) = s ∷ overwrite dst src

-- `copy(frame[pos:], src)`.
unfoldable pub copy_at : ℕ → List ℕ → List ℕ → List ℕ
unfolding overwrite
copy_at zero src frame = overwrite frame src
copy_at (suc pos) src [] = []
copy_at (suc pos) src (x ∷ frame) = x ∷ copy_at pos src frame

-- The flushed stream without its last four bytes.
unfoldable pub compress_payload : Flate → MsgSendOptions → List ℕ → Result (List ℕ)
compress_payload f o payload =
    if o.do_compress
    then elim (f.deflate o.compress_level payload) [
      | none ↦ err (new_error "flate: invalid compression level")
      | some z ↦ ok (take (length z - 4) z)
    ]
    else ok payload

abbrev pub set_cancel : Bool → List ℕ → List ℕ
set_cancel c [] = []
set_cancel c (b ∷ bs) = if c then bit_or b 0b1000_0000 ∷ bs else b ∷ bs

-- The stream id, with the cancel flag in its top bit, in front of the payload.
unfoldable pub stream_payload : MsgSendOptions → List ℕ → List ℕ
stream_payload o payload =
    if o.streamlize
    then set_cancel o.cancel_stream (put_uint16 (o.stream_id % 2 ^ 16)) ++ payload
    else payload

abbrev pub extended_size : ℕ → ℕ
extended_size size = if leb 65536 size then 8 else if ltb 125 size then 2 else 0

unfoldable pub frame_size : Bool → ℕ → ℕ
frame_size do_mask size = 2 + size + (if do_mask then 4 else 0) + extended_size size

unfoldable pub first_byte : Message → ℕ
unfolding is_control
first_byte m =
    let b = m.msg_type % 256 in
    let b1 = if m.is_complete || is_control m then bit_or b 0b1000_0000 else b in
    let b2 = if m.send.do_compress then bit_or b1 0b0100_0000 else b1 in
    if m.send.streamlize then bit_or b2 0b0010_0000 else b2

unfoldable pub size_byte : ℕ → ℕ
size_byte size = if leb 65536 size then 127 else if ltb 125 size then 126 else size % 256

unfoldable pub second_byte : Bool → ℕ → ℕ
second_byte do_mask size = bit_or (if do_mask then bit_or 0 0b1000_0000 else 0) (size_byte size)

-- The length field behind the two bytes.
unfoldable pub extended_bytes : ℕ → List ℕ
extended_bytes size =
    if leb 65536 size
    then put_uint64 (size % 2 ^ 64)
    else if ltb 125 size
    then put_uint16 (size % 2 ^ 16)
    else []

-- The buffer is allocated at its full size, and filled from the front.
unfoldable pub fill_frame : ℕ → ℕ → Bool → List ℕ → List ℕ → List ℕ
fill_frame first second do_mask mask payload =
    let size = length payload in
    let frame = copy_at 0 (first ∷ second ∷ []) (replicate (frame_size do_mask size) 0) in
    let sized = copy_at 2 (extended_bytes size) frame in
    let pos = 2 + extended_size size in
    if do_mask
    then copy_at (pos + 4) payload (copy_at pos mask sized)
    else copy_at pos payload sized

-- Masking works in place: with neither compression nor a stream id the slice that is masked is
-- the message's own payload, and so the caller's.
unfoldable pub is_aliased : MsgSendOptions → Bool
is_aliased o = not o.do_compress && not o.streamlize

unfoldable pub mask_message : Message → List ℕ → List ℕ → Message × List ℕ
mask_message m instant_mask payload =
    if m.send.do_mask
    then (let m' = set_mask m instant_mask in
        let masked = mask_payload m' payload in
        (record m' { payload = if is_aliased m.send then masked else m.payload }, masked))
    else (m, payload)

-- `instant_mask` is what `createMask` returns.
unfoldable pub assemble : Flate → List ℕ → Message → Result Message
assemble f instant_mask m = do
  packed ← compress_payload f m.send m.payload
  let body = stream_payload m.send packed
  let (m', masked) = mask_message m instant_mask body
  let second = second_byte m.send.do_mask (length body)
  let frame = fill_frame (first_byte m) second m.send.do_mask instant_mask masked
  ok (record m' { entity = m'.entity ++ frame })
