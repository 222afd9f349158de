-- ===== src/Connection/Write/Numbered.antt =====
-- connection.go: `writeSingleFrame` on the frames of a stream, up to the last one, which gives the id back.
use webson.Common.{
  ℕ, ◌≡◌, refl, ap, ap₂, ◌∙◌, Bool, true, false, if◌then◌else◌, List, [], ◌∷◌, ◌++◌, none, arith,
  flatten,
}
use mathlib.Core.List.{append_assoc}
use webson.Errors.{ok}
use webson.Message.{Message}
use webson.Message.Assemble.{Flate, compress_payload, stream_payload, is_aliased}
use webson.Message.Assemble.Shape.{frame_of, assembled, assemble_lem, mask_message_lem}
use webson.Message.Split.{chunk_message}
use webson.Message.Split.Chunks.{frames}
use webson.Connection.{Connection}
use webson.Connection.Streams.{release_id}
use webson.Connection.Write.{
  written, write_raw, write_assembled, write_single_frame, dispatched, write_frames, prepend,
}
use webson.Connection.Write.Frames.{
  write_frames_cons, IsWritable, next_mask, masks_used, draw_lem, write_single_frame-ok,
  assembled-fields,
}

-- A frame of a stream, without compression.
pub record IsNumbered (i : ℕ) (m : Message) : Type 0 where
  pub streamed : m.send.streamlize ≡ true
  pub number : m.send.stream_id ≡ i
  pub no_compress : m.send.do_compress ≡ false
  pub empty : m.entity ≡ []

-- The frame as it is on the network.
abbrev pub numbered_frame : Message → List ℕ → List ℕ
numbered_frame m mask = frame_of m mask (stream_payload m.send m.payload)

unfoldable pub numbered_frames : (ℕ → List ℕ) → ℕ → List Message → List (List ℕ)
numbered_frames masks k [] = []
numbered_frames masks k (m ∷ ms) =
    numbered_frame m (masks k) ∷ numbered_frames masks (next_mask m k) ms

-- The ids in use once a frame is out.
abbrev ids_after : Message → List ℕ → List ℕ
ids_after m ids = if m.is_complete then release_id m.send.stream_id ids else ids

abbrev after_numbered : Message → Connection → Connection
after_numbered m con = record con {
  drawn = next_mask m con.drawn;
  in_use_streams = ids_after m con.in_use_streams;
  wire = con.wire ++ (numbered_frame m (con.entropy con.drawn) ∷ []);
}

compress-none :
    (f : Flate) (m : Message)
    → m.send.do_compress ≡ false
    → compress_payload f m.send m.payload ≡ ok m.payload
unfolding compress_payload
compress-none f m e = ground arith

write_assembled-numbered :
    (m : Message) (con : Connection) (frame : List ℕ)
    → m.send.streamlize ≡ true
    → m.entity ≡ frame
    → con.stream_id_locked ≡ false
    → con.raw_closed ≡ false
    → con.raw_error ≡ none
    → write_assembled m con
      ≡ written none
          (record m { entity = [] })
          (record con {
            wire = con.wire ++ (frame ∷ []);
            in_use_streams = ids_after m con.in_use_streams;
          })
unfolding write_assembled write_raw
write_assembled-numbered m con frame s e free reachable works = ground arith

payload-numbered :
    (m : Message) (mask body : List ℕ)
    → m.send.streamlize ≡ true
    → (assembled m mask body).payload ≡ m.payload
unfolding is_aliased
payload-numbered m mask body s =
    let (sent, entity, payload) = mask_message_lem m mask body in payload ∙ ground arith

write_numbered :
    (f : Flate) (i : ℕ) (m : Message) (con : Connection)
    → IsNumbered i m
    → IsWritable con
    → con.stream_id_locked ≡ false
    → (m' : Message) × (write_single_frame f m con ≡ written none m' (after_numbered m con))
      × (m'.payload ≡ m.payload)
write_numbered f i m con p w free =
    let mask = con.entropy con.drawn in
    let body = stream_payload m.send m.payload in
    let m' = assembled m mask body in
    let (send, complete) = assembled-fields m mask body in
    let frame = frame_of m mask body in
    let e : m'.entity ≡ frame = ap (λ t. t ++ frame) p.empty in
    let s : m'.send.streamlize ≡ true = ap (λ o. o.streamlize) send ∙ p.streamed in
    let drawn = record con { drawn = next_mask m con.drawn } in
    let step = write_assembled-numbered m' drawn frame s e free w.raw_open w.raw_works in
    let ids : ids_after m' con.in_use_streams ≡ ids_after m con.in_use_streams =
      ap₂ (λ b o. if b then release_id o.stream_id con.in_use_streams else con.in_use_streams)
        complete send in
    (
      record m' { entity = [] },
      write_single_frame-ok f m m' con w.ready
            (assemble_lem f mask m m.payload (w.masks con.drawn) (compress-none f m p.no_compress))
          ∙ ap (write_assembled m') (draw_lem m con)
          ∙ step
          ∙ ap
              (λ t.
                written none (record m' { entity = [] })
                  (record (after_numbered m con) { in_use_streams = t }))
              ids,
      payload-numbered m mask body p.streamed,
    )

numbered-IsWritable :
    (m : Message) (con : Connection) → IsWritable con → IsWritable (after_numbered m con)
numbered-IsWritable m con w = record {
  ready = w.ready;
  raw_open = w.raw_open;
  raw_works = w.raw_works;
  masks = w.masks;
}

-- What all the frames of one message have in common.
pub record IsNumbering (m : Message) : Type 0 where
  pub streamed : m.send.streamlize ≡ true
  pub no_compress : m.send.do_compress ≡ false

chunk-IsNumbered :
    (m : Message) (b : Bool) (c : List ℕ)
    → IsNumbering m
    → IsNumbered m.send.stream_id (chunk_message m b c)
unfolding chunk_message
chunk-IsNumbered m b c h = record {
  streamed = h.streamed;
  number = refl;
  no_compress = h.no_compress;
  empty = refl;
}

-- The connection once all the frames are out: the id is free again.
abbrev pub after_stream : Message → List (List ℕ) → Connection → Connection
after_stream m cs con = record con {
  drawn = masks_used con.drawn (frames m cs);
  in_use_streams = release_id m.send.stream_id con.in_use_streams;
  wire = con.wire ++ numbered_frames con.entropy con.drawn (frames m cs);
}

chunk_payload : (m : Message) (b : Bool) (c : List ℕ) → (chunk_message m b c).payload ≡ c
unfolding chunk_message
chunk_payload m b c = refl

write_first :
    (f : Flate) (m : Message) (b : Bool) (c : List ℕ) (ms : List Message) (con : Connection)
    (left : List ℕ) (end : Connection)
    → IsNumbering m
    → IsWritable con
    → con.stream_id_locked ≡ false
    → write_frames f ms (after_numbered (chunk_message m b c) con) ≡ dispatched none left end
    → write_frames f (chunk_message m b c ∷ ms) con ≡ dispatched none (c ++ left) end
write_first f m b c ms con left end h w free rest =
    let v = chunk_message m b c in
    let (m', e, same) = write_numbered f m.send.stream_id v con (chunk-IsNumbered m b c h) w free in
    write_frames_cons f v m' ms con (after_numbered v con) e
    ∙ ap₂ prepend (same ∙ chunk_payload m b c) rest

no_frames : (f : Flate) (con : Connection) → write_frames f [] con ≡ dispatched none [] con
unfolding write_frames
no_frames f con = refl

last_frame :
    (m : Message) (c : List ℕ) (con : Connection)
    → after_numbered (chunk_message m true c) con ≡ after_stream m (c ∷ []) con
unfolding frames chunk_message numbered_frames masks_used
last_frame m c con = refl

first_frame :
    (m : Message) (c d : List ℕ) (cs : List (List ℕ)) (con : Connection)
    → after_stream m (d ∷ cs) (after_numbered (chunk_message m false c) con)
      ≡ after_stream m (c ∷ d ∷ cs) con
unfolding frames chunk_message numbered_frames masks_used
first_frame m c d cs con =
    ap (λ t. record (after_stream m (c ∷ d ∷ cs) con) { wire = t })
      (append_assoc con.wire (numbered_frame (chunk_message m false c) (con.entropy con.drawn) ∷ [])
        _)

frames_one : (m : Message) (c : List ℕ) → frames m (c ∷ []) ≡ chunk_message m true c ∷ []
unfolding frames
frames_one m c = refl

frames_two :
    (m : Message) (c d : List ℕ) (cs : List (List ℕ))
    → frames m (c ∷ d ∷ cs) ≡ chunk_message m false c ∷ frames m (d ∷ cs)
unfolding frames
frames_two m c d cs = refl

pub write_frames-numbered :
    (f : Flate) (m : Message) (c : List ℕ) (cs : List (List ℕ)) (con : Connection)
    → IsNumbering m
    → IsWritable con
    → con.stream_id_locked ≡ false
    → write_frames f (frames m (c ∷ cs)) con
      ≡ dispatched none (flatten (c ∷ cs)) (after_stream m (c ∷ cs) con)
write_frames-numbered f m c [] con h w free =
    ap (λ ms. write_frames f ms con) (frames_one m c)
    ∙ write_first f m true c [] con [] _ h w free
        (no_frames f (after_numbered (chunk_message m true c) con))
    ∙ ap (dispatched none (c ++ [])) (last_frame m c con)
write_frames-numbered f m c (d ∷ cs) con h w free =
    let next = after_numbered (chunk_message m false c) con in
    ap (λ ms. write_frames f ms con) (frames_two m c d cs)
    ∙ write_first f m false c (frames m (d ∷ cs)) con (flatten (d ∷ cs)) _ h w free (
        write_frames-numbered f m d cs next h (numbered-IsWritable (chunk_message m false c) con w)
          free)
    ∙ ap (dispatched none (flatten (c ∷ d ∷ cs))) (first_frame m c d cs con)
