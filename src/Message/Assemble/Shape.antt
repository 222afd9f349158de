-- ===== src/Message/Assemble/Shape.antt =====
-- message.go: the buffer that `assemble` fills piece by piece, and its frame as a concatenation.
use webson.Common.{
  ℕ, zero, suc, ◌+◌, ◌≡◌, refl, ap, ap₂, Bool, true, false, if◌then◌else◌, List, [], ◌∷◌, ◌++◌,
  length, length-append, replicate, arith, Bool-cases, inl, inr, ◌∙◌, ◌&&◌,
}
use mathlib.Core.List.{append-nil, append_assoc}
use webson.Common.Words.{put_uint16, put_uint64}
use webson.Errors.{ok}
use webson.Message.{Message}
use webson.Message.Mask.{set_mask, mask_payload, mask_key, mask_from, length-mask_from}
use webson.Message.Assemble.{
  Flate, first_byte, second_byte, mask_message, is_aliased, assemble, compress_payload,
  stream_payload, overwrite, copy_at, fill_frame, frame_size, extended_size, extended_bytes,
}

overwrite-replicate :
    (src : List ℕ) (m n : ℕ)
    → m ≡ length src + n
    → overwrite (replicate m 0) src ≡ src ++ replicate n 0
unfolding overwrite
overwrite-replicate [] zero n h = let e : n ≡ 0 = omega arith in rw e
overwrite-replicate [] (suc m) n h = let e : n ≡ suc m = omega arith in rw e
overwrite-replicate (s ∷ src) zero n h = absurd (omega arith)
overwrite-replicate (s ∷ src) (suc m) n h =
    ap (λ t. s ∷ t) (overwrite-replicate src m n (omega arith))

-- A copy at the end of what is written already fills in the next bytes.
pub copy_at-replicate :
    (done src : List ℕ) (pos m n : ℕ)
    → pos ≡ length done
    → m ≡ length src + n
    → copy_at pos src (done ++ replicate m 0) ≡ done ++ (src ++ replicate n 0)
unfolding copy_at
copy_at-replicate [] src zero m n hp h = overwrite-replicate src m n h
copy_at-replicate [] src (suc pos) m n hp h = absurd (omega arith)
copy_at-replicate (d ∷ done) src zero m n hp h = absurd (omega arith)
copy_at-replicate (d ∷ done) src (suc pos) m n hp h =
    ap (λ t. d ∷ t) (copy_at-replicate done src pos m n (omega arith) h)

length-extended_bytes : (size : ℕ) → length (extended_bytes size) ≡ extended_size size
unfolding extended_bytes put_uint16 put_uint64
length-extended_bytes size = ground arith

abbrev pub mask_field : Bool → List ℕ → List ℕ
mask_field do_mask mask = if do_mask then mask else []

pub fill_frame_lem :
    (first second : ℕ) (do_mask : Bool) (mask payload : List ℕ)
    → length mask ≡ 4
    → fill_frame first second do_mask mask payload
      ≡ first ∷ second ∷ (extended_bytes (length payload) ++ (mask_field do_mask mask ++ payload))
unfolding fill_frame frame_size
fill_frame_lem first second false mask payload h =
    let e = length-extended_bytes (length payload) in
    let x = extended_size (length payload) in
    let n = length payload in
    let head : List ℕ = first ∷ second ∷ [] in
    let field = extended_bytes n in
    rw (
      copy_at-replicate [] head 0 (2 + n + 0 + x) (x + n) refl (omega arith),
      copy_at-replicate head field 2 (x + n) n refl (omega (arith, e)),
      copy_at-replicate (first ∷ second ∷ field) payload (2 + x) n 0 (omega (arith, e))
          (omega arith),
      append-nil,
    )
fill_frame_lem first second true mask payload h =
    let e = length-extended_bytes (length payload) in
    let x = extended_size (length payload) in
    let n = length payload in
    let head : List ℕ = first ∷ second ∷ [] in
    let field = extended_bytes n in
    rw (
      copy_at-replicate [] head 0 (2 + n + 4 + x) (x + (4 + n)) refl (omega arith),
      copy_at-replicate head field 2 (x + (4 + n)) (4 + n) refl (omega (arith, e)),
      copy_at-replicate (first ∷ second ∷ field) mask (2 + x) (4 + n) n (omega (arith, e))
          (omega (arith, h)),
      ← append_assoc field mask (replicate n 0),
      copy_at-replicate (first ∷ second ∷ (field ++ mask)) payload (2 + x + 4) n 0
          (omega (arith, e, length-append field mask)) (omega arith),
      append-nil,
      append_assoc,
    )

-- The payload as it is sent.
abbrev pub sent_payload : Message → List ℕ → List ℕ → List ℕ
sent_payload m mask body =
    if m.send.do_mask then mask_from (mask_key m.config.extra_mask mask) 0 body else body

-- The whole frame of a message with the body `body`: the payload behind compression and stream id.
abbrev pub frame_of : Message → List ℕ → List ℕ → List ℕ
frame_of m mask body =
    first_byte m
    ∷ second_byte m.send.do_mask (length body)
    ∷ (extended_bytes (length body) ++ (mask_field m.send.do_mask mask ++ sent_payload m mask body))

pub length-sent_payload :
    (m : Message) (mask body : List ℕ) → length (sent_payload m mask body) ≡ length body
length-sent_payload m mask body = elim (Bool-cases m.send.do_mask) [
  | inl e ↦ rw e (length-mask_from (mask_key m.config.extra_mask mask) 0 body)
  | inr e ↦ rw e
]

pub mask_message_lem :
    (m : Message) (mask body : List ℕ)
    → ((mask_message m mask body).1 ≡ sent_payload m mask body)
      × ((mask_message m mask body).0.entity ≡ m.entity)
      × ((mask_message m mask body).0.payload
          ≡ (if m.send.do_mask && is_aliased m.send then sent_payload m mask body else m.payload))
unfolding mask_message set_mask mask_payload
mask_message_lem m mask body = ground arith

-- The message that `assemble` returns.
abbrev pub assembled : Message → List ℕ → List ℕ → Message
assembled m mask body = record masked { entity = m.entity ++ frame_of m mask body }
  where
    masked : Message
    masked = (mask_message m mask body).0

-- With a mask of four bytes and a compressor that does not fail, assemble appends one frame to the
-- buffer of the message: the two bytes of the header, the length field, the mask if any, and the
-- body, masked if asked for.
pub assemble_lem :
    (f : Flate) (mask : List ℕ) (m : Message) (packed : List ℕ)
    → length mask ≡ 4
    → compress_payload f m.send m.payload ≡ ok packed
    → assemble f mask m ≡ ok (assembled m mask (stream_payload m.send packed))
unfolding assemble
assemble_lem f mask m packed h e =
    let body = stream_payload m.send packed in
    let (sent, entity, payload) = mask_message_lem m mask body in
    let size : length (mask_message m mask body).1 ≡ length body =
      ap length sent ∙ length-sent_payload m mask body in
    let first = first_byte m in
    let second = second_byte m.send.do_mask (length body) in
    let written = fill_frame_lem first second m.send.do_mask mask (mask_message m mask body).1 h in
    let field = mask_field m.send.do_mask mask in
    rw e (
      ap (λ t. ok (record (assembled m mask body) { entity = t }))
        (ap₂ ◌++◌ entity
          (written ∙ ap₂ (λ n p. first ∷ second ∷ (extended_bytes n ++ (field ++ p))) size sent)))
