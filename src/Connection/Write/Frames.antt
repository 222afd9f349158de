-- ===== src/Connection/Write/Frames.antt =====
-- connection.go: `writeSingleFrame` on plain messages, one after the other.
use webson.Common.{
  ℕ, ◌+◌, ◌≡◌, refl, sym, ap, ap₂, ◌∙◌, false, if◌then◌else◌, List, [], ◌∷◌, ◌++◌, none, length,
  arith, All,
}
use mathlib.Core.List.{append_assoc, append-nil}
use webson.Errors.{Status, status_ready, ok}
use webson.Message.{Message}
use webson.Message.Assemble.{
  Flate, compress_payload, stream_payload, assemble, is_aliased, mask_message,
}
use webson.Message.Assemble.Shape.{sent_payload, frame_of, assembled, assemble_lem}
use webson.Message.Mask.{set_mask, mask_payload}
use webson.Connection.{Connection}
use webson.Connection.Write.{
  written, write_raw, write_assembled, write_single_frame, status_error, draw, dispatched,
  write_frames, prepend, after_written,
}

-- The connection takes frames, and each mask has four bytes.
pub record IsWritable (con : Connection) : Type 0 where
  pub ready : con.status ≡ status_ready
  pub raw_open : con.raw_closed ≡ false
  pub raw_works : con.raw_error ≡ none
  pub masks : (n : ℕ) → length (con.entropy n) ≡ 4

-- A frame with no compression and no stream id.
pub record IsPlain (m : Message) : Type 0 where
  pub no_stream : m.send.streamlize ≡ false
  pub no_compress : m.send.do_compress ≡ false
  pub empty : m.entity ≡ []

abbrev pub next_mask : Message → ℕ → ℕ
next_mask m k = if m.send.do_mask then k + 1 else k

-- The frames of some messages, with the masks from the `k`-th one on.
unfoldable pub sent_frames : (ℕ → List ℕ) → ℕ → List Message → List (List ℕ)
sent_frames masks k [] = []
sent_frames masks k (m ∷ ms) = frame_of m (masks k) m.payload ∷ sent_frames masks (next_mask m k) ms

-- What is left in their payloads.
unfoldable pub left_behind : (ℕ → List ℕ) → ℕ → List Message → List ℕ
left_behind masks k [] = []
left_behind masks k (m ∷ ms) =
    sent_payload m (masks k) m.payload ++ left_behind masks (next_mask m k) ms

unfoldable pub masks_used : ℕ → List Message → ℕ
masks_used k [] = k
masks_used k (m ∷ ms) = masks_used (next_mask m k) ms

-- The connection once a frame, or some, are out.
abbrev pub after_frame : Message → Connection → Connection
after_frame m con = record con {
  drawn = next_mask m con.drawn;
  wire = con.wire ++ (frame_of m (con.entropy con.drawn) m.payload ∷ []);
}

abbrev pub after_frames : List Message → Connection → Connection
after_frames ms con = record con {
  drawn = masks_used con.drawn ms;
  wire = con.wire ++ sent_frames con.entropy con.drawn ms;
}

pub compress_payload-plain :
    (f : Flate) (m : Message) → IsPlain m → compress_payload f m.send m.payload ≡ ok m.payload
unfolding compress_payload
compress_payload-plain f m p = let e = p.no_compress in ground arith

stream_payload-plain : (m : Message) (body : List ℕ) → IsPlain m → stream_payload m.send body ≡ body
unfolding stream_payload
stream_payload-plain m body p = let e = p.no_stream in ground arith

plain_assemble :
    (f : Flate) (mask : List ℕ) (m : Message)
    → IsPlain m
    → length mask ≡ 4
    → assemble f mask m ≡ ok (assembled m mask m.payload)
plain_assemble f mask m p h =
    assemble_lem f mask m m.payload h (compress_payload-plain f m p)
    ∙ ap (λ b. ok (assembled m mask b)) (stream_payload-plain m m.payload p)

payload-assembled :
    (m : Message) (mask body : List ℕ)
    → IsPlain m
    → m.payload ≡ body
    → (assembled m mask body).payload ≡ sent_payload m mask body
unfolding mask_message is_aliased set_mask mask_payload
payload-assembled m mask body p h = let e = p.no_compress in let e' = p.no_stream in ground arith

-- A message that is no stream frame, to a network that works.
write_assembled-plain :
    (m : Message) (con : Connection) (frame : List ℕ)
    → m.send.streamlize ≡ false
    → m.entity ≡ frame
    → con.raw_closed ≡ false
    → con.raw_error ≡ none
    → write_assembled m con
      ≡ written none (record m { entity = [] }) (record con { wire = con.wire ++ (frame ∷ []) })
unfolding write_assembled write_raw
write_assembled-plain m con frame s e reachable works = ground arith

pub draw_lem :
    (m : Message) (con : Connection) → draw m con ≡ record con { drawn = next_mask m con.drawn }
unfolding draw
draw_lem m con = ground arith

pub status_error-ready : (s : Status) → s ≡ status_ready → status_error s ≡ none
unfolding status_error
status_error-ready s e = rw e

pub write_single_frame-ok :
    (f : Flate) (m m' : Message) (con : Connection)
    → con.status ≡ status_ready
    → assemble f (con.entropy con.drawn) m ≡ ok m'
    → write_single_frame f m con ≡ write_assembled m' (draw m con)
unfolding write_single_frame
write_single_frame-ok f m m' con ready e =
    let e' = status_error-ready con.status ready in ground arith

pub assembled-fields :
    (m : Message) (mask body : List ℕ)
    → ((assembled m mask body).send ≡ m.send)
      × ((assembled m mask body).is_complete ≡ m.is_complete)
unfolding mask_message set_mask
assembled-fields m mask body = ground arith

pub write_plain :
    (f : Flate) (m : Message) (con : Connection)
    → IsPlain m
    → IsWritable con
    → (m' : Message) × (write_single_frame f m con ≡ written none m' (after_frame m con))
      × (m'.payload ≡ sent_payload m (con.entropy con.drawn) m.payload)
write_plain f m con p w =
    let mask = con.entropy con.drawn in
    let m' = assembled m mask m.payload in
    let (send, complete) = assembled-fields m mask m.payload in
    let frame = frame_of m mask m.payload in
    let e : m'.entity ≡ frame = ap (λ t. t ++ frame) p.empty in
    let s : m'.send.streamlize ≡ false = ap (λ o. o.streamlize) send ∙ p.no_stream in
    let step =
      write_assembled-plain m' (record con { drawn = next_mask m con.drawn }) frame s e w.raw_open
        w.raw_works in
    (
      record m' { entity = [] },
      write_single_frame-ok f m m' con w.ready (plain_assemble f mask m p (w.masks con.drawn))
          ∙ ap (write_assembled m') (draw_lem m con)
          ∙ step,
      payload-assembled m mask m.payload p refl,
    )

pub write_frames_cons :
    (f : Flate) (m m' : Message) (ms : List Message) (con con' : Connection)
    → write_single_frame f m con ≡ written none m' con'
    → write_frames f (m ∷ ms) con ≡ prepend m'.payload (write_frames f ms con')
unfolding write_frames
write_frames_cons f m m' ms con con' e = ap (after_written ms (λ c. write_frames f ms c)) e

pub after_frame-IsWritable :
    (m : Message) (con : Connection) → IsWritable con → IsWritable (after_frame m con)
after_frame-IsWritable m con w = record {
  ready = w.ready;
  raw_open = w.raw_open;
  raw_works = w.raw_works;
  masks = w.masks;
}

pub after_frames_cons :
    (m : Message) (ms : List Message) (con : Connection)
    → after_frames ms (after_frame m con) ≡ after_frames (m ∷ ms) con
unfolding sent_frames masks_used
after_frames_cons m ms con =
    ap (λ t. record (after_frames (m ∷ ms) con) { wire = t })
      (append_assoc con.wire (frame_of m (con.entropy con.drawn) m.payload ∷ [])
        (sent_frames con.entropy (next_mask m con.drawn) ms))

-- Plain messages on a connection that works are all written.
pub write_frames_lem :
    (f : Flate) (ms : List Message) (con : Connection)
    → All IsPlain ms
    → IsWritable con
    → write_frames f ms con
      ≡ dispatched none (left_behind con.entropy con.drawn ms) (after_frames ms con)
write_frames_lem f [] con ps w =
    unfold write_frames sent_frames left_behind masks_used in
    ap (λ t. dispatched none [] (record con { wire = t })) (sym (append-nil con.wire))
write_frames_lem f (m ∷ ms) con (p, ps) w =
    let (m', e, left) = write_plain f m con p w in
    write_frames_cons f m m' ms con (after_frame m con) e
    ∙ ap (prepend m'.payload)
        (write_frames_lem f ms (after_frame m con) ps (after_frame-IsWritable m con w))
    ∙ ap₂ (dispatched none)
        (unfold left_behind in
          ap (λ t. t ++ left_behind con.entropy (next_mask m con.drawn) ms) left)
        (after_frames_cons m ms con)
