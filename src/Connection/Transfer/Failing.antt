-- ===== src/Connection/Transfer/Failing.antt =====
-- A message from `DispatchReader` whose source fails, at the receiver.
use webson.Common.{
  ℕ, suc, ◌+◌, ◌<◌, ◌≡◌, refl, ap, ◌∙◌, true, false, List, [], ◌∷◌, ◌++◌, some, none, All, length,
  flatten, arith,
}
use webson.Message.{Message, MessageType, spawn_vessel}
use webson.Message.Assemble.{Flate}
use webson.Message.Split.{chunk_message}
use webson.Message.Split.Laws.{Fits}
use webson.Message.Collect.Delivery.{entities}
use webson.Connection.{Connection, lookup}
use webson.Connection.Streams.{send_options}
use webson.Connection.Write.{Source, dispatched, dispatch_reader, is_eof}
use webson.Connection.Write.Frames.{after_frames, sent_frames, next_mask}
use webson.Connection.Write.Wire.{outgoing}
use webson.Connection.Write.Failing.{failing_frames, failing_frames-IsPlain, dispatch_reader-fails}
use webson.Connection.Receive.Steps.{with_buffer}
use webson.Connection.Receive.Reassembly.{IsPart, deliver_all}
use webson.Connection.Receive.Unfinished.{IsPending, deliver_all-IsPending}
use webson.Connection.Start.{serve}
use webson.Connection.Start.Frames.{Arrives, deliver_sent}
use webson.Reader.{Reader}
use webson.Connection.Transfer.Made.{
  on_the_way, bytes-on_the_way, made, NoCancel, deliver_sent-made, serve-wire,
}
use webson.Connection.Transfer.Linked.{IsLinked, chunk-Arrives, chunk-IsPart}
use webson.Connection.Transfer.Whole.{NotReading, made-NotReading}
use webson.Connection.Transfer.Streamed.{reads_of}

-- The frames that `DispatchReader` puts on the network before it returns the error of its source.
abbrev pub failing_wire : MessageType → Source → Connection → List (List ℕ)
failing_wire t s con =
    sent_frames con.entropy con.drawn (failing_frames (outgoing t [] con) s.reads s.last)

failing_frames-payloads :
    (clock : ℕ → ℕ) (n : ℕ) (rc : Connection) (masks : ℕ → List ℕ) (k : ℕ) (m : Message)
    (reads : List (List ℕ)) (last : List ℕ)
    → entities (made clock n rc (on_the_way masks k (failing_frames m reads last)))
      ≡ flatten (reads ++ (last ∷ []))
unfolding failing_frames on_the_way made chunk_message spawn_vessel
failing_frames-payloads clock n rc masks k m [] last = refl
failing_frames-payloads clock n rc masks k m (c ∷ reads) last =
    ap (λ t. c ++ t)
      (failing_frames-payloads clock (suc n) rc masks (next_mask (chunk_message m false c) k) m
        reads last)

module _ (t : MessageType) (con rc : Connection) (size : ℕ) (w : IsLinked t [] con rc size) where
  abbrev m : Message
  m = outgoing t [] con

  pub failing_frames-Arrives :
      (k : ℕ) (reads : List (List ℕ)) (last : List ℕ)
      → All (Fits con.config.chunk_size) (reads ++ (last ∷ []))
      → All (Arrives rc size) (on_the_way con.entropy k (failing_frames m reads last))
  unfolding failing_frames on_the_way chunk_message spawn_vessel
  failing_frames-Arrives k [] last (h, hs) =
      (chunk-Arrives t [] con rc size w false true last k h, tt)
  failing_frames-Arrives k (c ∷ reads) last (h, hs) = (
    chunk-Arrives t [] con rc size w false m.send.cancel_stream c k h,
    failing_frames-Arrives (next_mask (chunk_message m false c) k) reads last hs,
  )

  pub failing_frames-NoCancel :
      (k : ℕ) (reads : List (List ℕ)) (last : List ℕ)
      → All NoCancel (on_the_way con.entropy k (failing_frames m reads last))
  unfolding failing_frames on_the_way chunk_message spawn_vessel send_options
  failing_frames-NoCancel k [] last = let s = w.no_stream in (ground arith, tt)
  failing_frames-NoCancel k (c ∷ reads) last =
      let s = w.no_stream in
      (ground arith, failing_frames-NoCancel (next_mask (chunk_message m false c) k) reads last)

  pub failing_frames-IsPart :
      (clock : ℕ → ℕ) (n k : ℕ) (reads : List (List ℕ)) (last : List ℕ)
      → All
          (IsPart 0 false)
          (made clock n rc (on_the_way con.entropy k (failing_frames m reads last)))
  unfolding failing_frames on_the_way made chunk_message spawn_vessel
  failing_frames-IsPart clock n k [] last =
      (chunk-IsPart t [] con rc size w false true last k (clock n), tt)
  failing_frames-IsPart clock n k (c ∷ reads) last = (
    chunk-IsPart t [] con rc size w false m.send.cancel_stream c k (clock n),
    failing_frames-IsPart clock (suc n) (next_mask (chunk_message m false c) k) reads last,
  )

list-IsPending :
    (i : ℕ) (ms : List Message) (con : Connection)
    → 0 < length ms
    → con.config.trigger_on_start ≡ false
    → lookup i con.pending_streams ≡ none
    → All NotReading ms
    → All (IsPart i false) ms
    → IsPending i (entities ms) con (deliver_all ms con)
list-IsPending i [] con l s e r h = absurd (omega (arith, l))
list-IsPending i (m ∷ ms) con l s e (r, rs) (h, hs) = deliver_all-IsPending i m ms con s e r h hs

some_made :
    (clock : ℕ → ℕ) (n : ℕ) (rc : Connection) (masks : ℕ → List ℕ) (k : ℕ) (m : Message)
    (reads : List (List ℕ)) (last : List ℕ)
    → 0 < length (made clock n rc (on_the_way masks k (failing_frames m reads last)))
unfolding failing_frames on_the_way made
some_made clock n rc masks k m [] last = omega arith
some_made clock n rc masks k m (c ∷ reads) last = omega arith

reads-IsPending :
    (t : MessageType) (s : Source) (con rc : Connection) (size : ℕ) (clock : ℕ → ℕ) (n : ℕ)
    → IsLinked t [] con rc size
    → IsPending 0 (flatten (reads_of s)) rc (
        deliver_sent clock n
          (on_the_way con.entropy con.drawn (failing_frames (outgoing t [] con) s.reads s.last))
          rc)
reads-IsPending t s con rc size clock n w =
    let m = outgoing t [] con in
    let ss = on_the_way con.entropy con.drawn (failing_frames m s.reads s.last) in
    let (whole, same, entity, unfinished) =
      list-IsPending 0 (made clock n rc ss) rc
        (some_made clock n rc con.entropy con.drawn m s.reads s.last) w.waits w.idle
        (made-NotReading clock n rc ss)
        (failing_frames-IsPart t con rc size w clock n con.drawn s.reads s.last) in
    (
      whole,
      deliver_sent-made clock n ss rc rc (refl, refl, refl)
            (failing_frames-NoCancel t con rc size w con.drawn s.reads s.last)
          ∙ same,
      entity ∙ failing_frames-payloads clock n rc con.entropy con.drawn m s.reads s.last,
      unfinished,
    )

-- A source of data that fails with an error other than its end of file, with reads of at most a
-- chunk, on a connection without streams and compression, whose sender works and whose receiver has
-- room for a chunk, nothing pending and handlers that wait for the whole of a message:
-- DispatchReader returns the error of the source and appends one frame for each read to what was
-- written, and once they are in the buffer of the receiver, with any bytes behind them, the loop of
-- Start takes one round for each, calls no handler, and only leaves a message pending that is not
-- complete and has the bytes of all the reads.
pub dispatch_reader-IsPending :
    (f : Flate) (t : MessageType) (s : Source) (con rc : Connection) (r : Reader) (rest : List ℕ)
    (fuel : ℕ) (clock : ℕ → ℕ) (n : ℕ)
    → IsLinked t [] con rc r.size
    → is_eof s.ending ≡ false
    → All (Fits con.config.chunk_size) (reads_of s)
    → r.buffered ≡ flatten (failing_wire t s con) ++ rest
    → (con' rc' : Connection) × (dispatch_reader f t s con ≡ dispatched (some s.ending) [] con')
      × (con'.wire ≡ con.wire ++ failing_wire t s con)
      × (serve (length (failing_wire t s con) + fuel) f clock n rc r
          ≡ serve fuel f clock (n + length (failing_wire t s con)) rc' (with_buffer rest r))
      × IsPending 0 (flatten (reads_of s)) rc rc'
dispatch_reader-IsPending f t s con rc r rest fuel clock n w ending reads e =
    let ms = failing_frames (outgoing t [] con) s.reads s.last in
    let ss = on_the_way con.entropy con.drawn ms in
    let plain =
      failing_frames-IsPlain (outgoing t [] con) s.reads s.last w.no_stream w.no_compress in
    let bytes = bytes-on_the_way con.entropy con.drawn ms plain in
    let rc' = deliver_sent clock n ss rc in
    (
      after_frames ms con,
      rc',
      dispatch_reader-fails f t s con w.no_stream w.no_compress w.writable ending,
      refl,
      serve-wire fuel f clock n rc r ss (failing_wire t s con) rest bytes
          (failing_frames-Arrives t con rc r.size w con.drawn s.reads s.last reads) e,
      reads-IsPending t s con rc r.size clock n w,
    )
