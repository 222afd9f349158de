-- ===== src/Connection/Write/Streamed.antt =====
-- connection.go: what `DispatchReader` puts on the network.
use webson.Common.{ℕ, ◌≡◌, refl, sym, ap, ◌∙◌, Bool, true, false, List, [], ◌∷◌, ◌++◌, none}
use webson.Errors.{Error, eof}
use webson.Message.{Message, MessageType, spawn_vessel}
use webson.Message.Assemble.{Flate}
use webson.Message.Split.{chunk_message}
use webson.Message.Split.Chunks.{frames}
use webson.Connection.{Connection}
use webson.Connection.Streams.{patch_msg, patched, send_options}
use webson.Connection.Write.{
  Source, vessel, is_eof, written, write_blocks, write_single_frame, write_last, read_and_write,
  dispatched, dispatch_blocks, dispatch_reader, new_message,
}
use webson.Connection.Write.Frames.{
  IsWritable, IsPlain, after_frame, after_frames, write_plain, after_frame-IsWritable,
  after_frames_cons,
}
use webson.Connection.Write.Wire.{outgoing, patch_msg-plain}

pub vessel-chunk_message :
    (m : Message) (b : Bool) (c : List ℕ) → vessel m b m.send.cancel_stream c ≡ chunk_message m b c
unfolding spawn_vessel chunk_message
vessel-chunk_message m b c = refl

frames_more :
    (m : Message) (c last : List ℕ) (reads : List (List ℕ))
    → frames m (c ∷ (reads ++ (last ∷ [])))
      ≡ chunk_message m false c ∷ frames m (reads ++ (last ∷ []))
unfolding frames
frames_more m c last [] = refl
frames_more m c last (d ∷ reads) = refl

pub IsPlain-chunk :
    (m : Message) (b : Bool) (c : List ℕ)
    → m.send.streamlize ≡ false
    → m.send.do_compress ≡ false
    → IsPlain (vessel m b m.send.cancel_stream c)
unfolding spawn_vessel
IsPlain-chunk m b c s z = record { no_stream = s; no_compress = z; empty = refl }

last_written :
    (f : Flate) (m m' : Message) (last : List ℕ) (con con' : Connection)
    → write_single_frame f (vessel m true m.send.cancel_stream last) con ≡ written none m' con'
    → write_last f m last eof con ≡ dispatched none [] con'
unfolding write_last
last_written f m m' last con con' e = rw (e, write_last) refl

pub chunk_written :
    (f : Flate) (m m' : Message) (c last : List ℕ) (reads : List (List ℕ)) (ending : Error)
    (con con' : Connection)
    → write_single_frame f (vessel m false m.send.cancel_stream c) con ≡ written none m' con'
    → read_and_write f m (c ∷ reads) last ending con ≡ read_and_write f m reads last ending con'
unfolding read_and_write
chunk_written f m m' c last reads ending con con' e = rw (e, read_and_write) refl

pub no_reads :
    (f : Flate) (m : Message) (last : List ℕ) (ending : Error) (con : Connection)
    → read_and_write f m [] last ending con ≡ write_last f m last ending con
unfolding read_and_write
no_reads f m last ending con = refl

one_frame :
    (m : Message) (last : List ℕ) (con : Connection)
    → after_frame (chunk_message m true last) con ≡ after_frames (frames m (last ∷ [])) con
unfolding frames webson.Connection.Write.Frames.sent_frames
    webson.Connection.Write.Frames.masks_used
one_frame m last con = refl

-- One frame for each read, and the last one is final.
read_and_write-eof :
    (f : Flate) (m : Message) (reads : List (List ℕ)) (last : List ℕ) (con : Connection)
    → m.send.streamlize ≡ false
    → m.send.do_compress ≡ false
    → IsWritable con
    → read_and_write f m reads last eof con
      ≡ dispatched none [] (after_frames (frames m (reads ++ (last ∷ []))) con)
read_and_write-eof f m [] last con s z w =
    let (m', e, left) =
      write_plain f (vessel m true m.send.cancel_stream last) con (IsPlain-chunk m true last s z)
        w in
    no_reads f m last eof con
    ∙ last_written f m m' last con _ e
    ∙ ap (λ x. dispatched none [] (after_frame x con)) (vessel-chunk_message m true last)
    ∙ ap (dispatched none []) (one_frame m last con)
read_and_write-eof f m (c ∷ reads) last con s z w =
    let v = vessel m false m.send.cancel_stream c in
    let (m', e, left) = write_plain f v con (IsPlain-chunk m false c s z) w in
    chunk_written f m m' c last reads eof con _ e
    ∙ read_and_write-eof f m reads last (after_frame v con) s z (after_frame-IsWritable v con w)
    ∙ ap (dispatched none []) (
        after_frames_cons v (frames m (reads ++ (last ∷ []))) con
        ∙ ap (λ x. after_frames (x ∷ frames m (reads ++ (last ∷ []))) con)
            (vessel-chunk_message m false c)
        ∙ ap (λ x. after_frames x con) (sym (frames_more m c last reads)))

-- The frames that `DispatchReader` writes.
abbrev pub streamed_frames : MessageType → Source → Connection → List Message
streamed_frames t s con = frames (outgoing t [] con) (s.reads ++ (s.last ∷ []))

pub reader_patched :
    (f : Flate) (t : MessageType) (s : Source) (con : Connection) (m : Message)
    → patch_msg (new_message t [] con) con ≡ patched m con
    → dispatch_reader f t s con ≡ read_and_write f m s.reads s.last s.ending con
unfolding dispatch_reader
reader_patched f t s con m e = rw (e, dispatch_reader) refl

pub dispatch_reader_lem :
    (f : Flate) (t : MessageType) (s : Source) (con : Connection)
    → (send_options con (new_message t [] con)).streamlize ≡ false
    → (send_options con (new_message t [] con)).do_compress ≡ false
    → IsWritable con
    → s.ending ≡ eof
    → dispatch_reader f t s con ≡ dispatched none [] (after_frames (streamed_frames t s con) con)
dispatch_reader_lem f t s con no_stream no_compress w ending =
    reader_patched f t s con (outgoing t [] con)
      (patch_msg-plain (new_message t [] con) con no_stream)
    ∙ ap (λ x. read_and_write f (outgoing t [] con) s.reads s.last x con) ending
    ∙ read_and_write-eof f (outgoing t [] con) s.reads s.last con no_stream no_compress w
