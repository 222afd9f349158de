-- ===== src/Connection/Write/Failing.antt =====
-- connection.go: what `DispatchReader` puts on the network when its source fails.
use webson.Common.{ℕ, ◌≡◌, refl, sym, ap, ◌∙◌, true, false, List, [], ◌∷◌, some, none, All}
use webson.Errors.{Error}
use webson.Message.{Message, MessageType, spawn_vessel}
use webson.Message.Assemble.{Flate}
use webson.Message.Split.{chunk_message}
use webson.Connection.{Connection}
use webson.Connection.Streams.{send_options}
use webson.Connection.Write.{
  Source, vessel, is_eof, written, write_single_frame, write_last, read_and_write, dispatched,
  dispatch_reader, new_message,
}
use webson.Connection.Write.Frames.{
  IsWritable, IsPlain, after_frame, after_frames, sent_frames, masks_used, write_plain,
  after_frame-IsWritable, after_frames_cons,
}
use webson.Connection.Write.Wire.{outgoing, patch_msg-plain}
use webson.Connection.Write.Streamed.{
  IsPlain-chunk, vessel-chunk_message, chunk_written, no_reads, reader_patched,
}

-- One frame for each read, none of them final; the last one is to be cancelled.
unfoldable pub failing_frames : Message → List (List ℕ) → List ℕ → List Message
failing_frames m [] last = vessel m false true last ∷ []
failing_frames m (c ∷ reads) last = chunk_message m false c ∷ failing_frames m reads last

IsPlain-last :
    (m : Message) (c : List ℕ)
    → m.send.streamlize ≡ false
    → m.send.do_compress ≡ false
    → IsPlain (vessel m false true c)
unfolding spawn_vessel
IsPlain-last m c s z = record { no_stream = s; no_compress = z; empty = refl }

pub failing_frames-IsPlain :
    (m : Message) (reads : List (List ℕ)) (last : List ℕ)
    → m.send.streamlize ≡ false
    → m.send.do_compress ≡ false
    → All IsPlain (failing_frames m reads last)
unfolding failing_frames chunk_message
failing_frames-IsPlain m [] last s z = (IsPlain-last m last s z, tt)
failing_frames-IsPlain m (c ∷ reads) last s z = (
  record { no_stream = s; no_compress = z; empty = refl },
  failing_frames-IsPlain m reads last s z,
)

last_failed :
    (f : Flate) (m m' : Message) (last : List ℕ) (ending : Error) (con con' : Connection)
    → is_eof ending ≡ false
    → write_single_frame f (vessel m false true last) con ≡ written none m' con'
    → write_last f m last ending con ≡ dispatched (some ending) [] con'
unfolding write_last
last_failed f m m' last ending con con' h e = rw (h, e, write_last) refl

one_failing :
    (m : Message) (last : List ℕ) (con : Connection)
    → after_frame (vessel m false true last) con ≡ after_frames (failing_frames m [] last) con
unfolding failing_frames sent_frames masks_used
one_failing m last con = refl

failing_more :
    (m : Message) (c last : List ℕ) (reads : List (List ℕ))
    → failing_frames m (c ∷ reads) last ≡ chunk_message m false c ∷ failing_frames m reads last
unfolding failing_frames
failing_more m c last reads = refl

read_and_write-fails :
    (f : Flate) (m : Message) (reads : List (List ℕ)) (last : List ℕ) (ending : Error)
    (con : Connection)
    → is_eof ending ≡ false
    → m.send.streamlize ≡ false
    → m.send.do_compress ≡ false
    → IsWritable con
    → read_and_write f m reads last ending con
      ≡ dispatched (some ending) [] (after_frames (failing_frames m reads last) con)
read_and_write-fails f m [] last ending con h s z w =
    let (m', e, left) = write_plain f (vessel m false true last) con (IsPlain-last m last s z) w in
    no_reads f m last ending con
    ∙ last_failed f m m' last ending con _ h e
    ∙ ap (dispatched (some ending) []) (one_failing m last con)
read_and_write-fails f m (c ∷ reads) last ending con h s z w =
    let v = vessel m false m.send.cancel_stream c in
    let (m', e, left) = write_plain f v con (IsPlain-chunk m false c s z) w in
    chunk_written f m m' c last reads ending con _ e
    ∙ read_and_write-fails f m reads last ending (after_frame v con) h s z
        (after_frame-IsWritable v con w)
    ∙ ap (dispatched (some ending) []) (
        after_frames_cons v (failing_frames m reads last) con
        ∙ ap (λ x. after_frames (x ∷ failing_frames m reads last) con)
            (vessel-chunk_message m false c)
        ∙ ap (λ x. after_frames x con) (sym (failing_more m c last reads)))

pub dispatch_reader-fails :
    (f : Flate) (t : MessageType) (s : Source) (con : Connection)
    → (send_options con (new_message t [] con)).streamlize ≡ false
    → (send_options con (new_message t [] con)).do_compress ≡ false
    → IsWritable con
    → is_eof s.ending ≡ false
    → dispatch_reader f t s con
      ≡ dispatched
          (some s.ending)
          []
          (after_frames (failing_frames (outgoing t [] con) s.reads s.last) con)
dispatch_reader-fails f t s con no_stream no_compress w ending =
    reader_patched f t s con (outgoing t [] con)
      (patch_msg-plain (new_message t [] con) con no_stream)
    ∙ read_and_write-fails f (outgoing t [] con) s.reads s.last s.ending con ending no_stream
        no_compress w
