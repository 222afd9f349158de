-- ===== src/Connection/Transfer/Streams.antt =====
-- A message from `Dispatch` to the handler, on a stream of its own.
use webson.Common.{
  ℕ, ◌+◌, ◌≤◌, ◌<◌, ◌≡◌, refl, ap, sym, ◌∙◌, inl, inr, true, false, List, ◌∷◌, ◌++◌, none, All,
  length, flatten, arith, ==_refl,
}
use mathlib.Core.Path.{subst}
use webson.Message.{MessageType, is_control}
use webson.Message.Assemble.{Flate}
use webson.Message.Split.Chunks.{cut, frames, split-frames}
use webson.Message.Split.Laws.{cut-cons, cut-Fits, flatten-cut, Fits}
use webson.Connection.{Connection}
use webson.Connection.Streams.{in_use, release_id, patch_msg, patched, with_stream}
use webson.Connection.Streams.Alloc.{IdsOk, release_id-first}
use webson.Connection.Streams.Patch.{patch_msg-TakesId, given}
use webson.Connection.Write.{dispatched, dispatch, new_message, write_frames, send_patched}
use webson.Connection.Write.Frames.{IsWritable}
use webson.Connection.Write.Numbered.{
  IsNumbering, numbered_frames, after_stream, write_frames-numbered,
}
use webson.Connection.Receive.Steps.{with_buffer}
use webson.Connection.Start.{serve}
use webson.Connection.Start.Frames.{deliver_sent}
use webson.Reader.{Reader}
use webson.Connection.Transfer.Made.{on_the_way}
use webson.Connection.Transfer.Sequence.{IsTransfer}
use webson.Connection.Transfer.Made.{serve-wire}
use webson.Connection.Transfer.Numbered.{
  IsStreamLinked, numbered, numbering, numbered_id, stream-Arrives, stream-IsTransfer,
  numbered-bytes,
}

new_message-data :
    (t : MessageType) (p : List ℕ) (con : Connection)
    → t < 8
    → is_control (new_message t p con) ≡ false
unfolding is_control
new_message-data t p con h = ground arith

-- An id is given out: the id 1 is free.
takes_id :
    (t : MessageType) (p : List ℕ) (con : Connection)
    → t < 8
    → con.nego.streamable ≡ true
    → IdsOk con
    → con.stream_id_locked ≡ false
    → in_use 1 con.in_use_streams ≡ false
    → (i : ℕ) × (patch_msg (new_message t p con) con ≡ patched (numbered t p i con) (given i con))
      × (in_use i con.in_use_streams ≡ false)
      × (1 ≤ i)
      × (i ≤ con.config.max_streams)
unfolding in_use
takes_id t p con small streams ids free one =
    elim (patch_msg-TakesId (new_message t p con) con ids streams (new_message-data t p con small)
      free) [
        | inl (i, e, unused, ok) ↦
            let (lo, hi) = ok.in_range i (rw (==_refl i) refl) in (i, e, unused, lo, hi)
        | inr (e, m', con', q, taken, all, locked) ↦ absurd cc
      ]

numbered-payload :
    (t : MessageType) (p : List ℕ) (i : ℕ) (con : Connection) → (numbered t p i con).payload ≡ p
unfolding with_stream
numbered-payload t p i con = refl

stream_written :
    (f : Flate) (t : MessageType) (p : List ℕ) (i : ℕ) (con : Connection) (c : List ℕ)
    (cs : List (List ℕ))
    → patch_msg (new_message t p con) con ≡ patched (numbered t p i con) (given i con)
    → cut (length p) con.config.chunk_size p ≡ c ∷ cs
    → 0 < con.config.chunk_size
    → IsNumbering (numbered t p i con)
    → IsWritable con
    → con.stream_id_locked ≡ false
    → dispatch f t p con
      ≡ dispatched none
          (flatten (c ∷ cs))
          (after_stream (numbered t p i con) (c ∷ cs) (given i con))
unfolding dispatch
stream_written f t p i con c cs e q some_chunk h w free =
    let m = numbered t p i con in
    let works : IsWritable (given i con) = record {
      ready = w.ready;
      raw_open = w.raw_open;
      raw_works = w.raw_works;
      masks = w.masks;
    } in
    ap (send_patched f p) e
    ∙ ap (λ ms. write_frames f ms (given i con)) (split-frames m con.config.chunk_size some_chunk)
    ∙ ap (λ x. write_frames f (frames m x) (given i con))
        (ap (λ x. cut (length x) con.config.chunk_size x) (numbered-payload t p i con) ∙ q)
    ∙ write_frames-numbered f m c cs (given i con) h works free

-- A data message on a connection with streams and without compression, with sound stream ids of 15
-- bits, the id 1 not in use and the lock free, whose sender works and whose receiver has room for a
-- chunk and its id, nothing pending and handlers that wait for the whole of a message: Dispatch
-- takes an id that was free, succeeds, appends the frames to what was written, leaves the caller's
-- slice as it was and gives the id back, and once the frames are in the buffer of the receiver,
-- with any bytes behind them, the loop of Start takes one round for each and calls the handlers
-- exactly once, with a complete message that has the bytes that were sent.
pub dispatch-IsStreamTransfer :
    (f : Flate) (t : MessageType) (p : List ℕ) (con rc : Connection) (r : Reader) (rest : List ℕ)
    (fuel : ℕ) (clock : ℕ → ℕ) (n : ℕ)
    → IsStreamLinked t con rc r.size
    → IdsOk con
    → con.stream_id_locked ≡ false
    → in_use 1 con.in_use_streams ≡ false
    → (i : ℕ) × (sent : List (List ℕ)) × (con' rc' : Connection) × (in_use i con.in_use_streams
        ≡ false)
      × (dispatch f t p con ≡ dispatched none p con')
      × (con'.wire ≡ con.wire ++ sent)
      × (con'.in_use_streams ≡ con.in_use_streams)
      × (serve (length sent + fuel) f clock n rc (with_buffer (flatten sent ++ rest) r)
          ≡ serve fuel f clock (n + length sent) rc' (with_buffer rest r))
      × IsTransfer i p rc rc'
dispatch-IsStreamTransfer f t p con rc r rest fuel clock n w ids free one =
    let limit = con.config.chunk_size in
    let (i, e, unused, lo, hi) = takes_id t p con w.data_type w.streams ids free one in
    let (c, cs, q) = cut-cons (length p) limit p in
    let m = numbered t p i con in
    let h = numbering t p i con rc r.size w lo hi in
    let ms = frames m (c ∷ cs) in
    let ss = on_the_way con.entropy con.drawn ms in
    let bytes = numbered-bytes con.entropy con.drawn ms in
    let whole : flatten (c ∷ cs) ≡ p = ap flatten (sym q) ∙ flatten-cut (length p) limit p in
    let fit : All (Fits limit) (c ∷ cs) =
      subst (All (Fits limit)) q (cut-Fits (length p) limit p w.chunks (omega arith)) in
    let rc' = deliver_sent clock n ss rc in
    let start = with_buffer (flatten (numbered_frames con.entropy con.drawn ms) ++ rest) r in
    (
      i,
      numbered_frames con.entropy con.drawn ms,
      after_stream m (c ∷ cs) (given i con),
      rc',
      unused,
      stream_written f t p i con c cs e q w.chunks h w.writable free
          ∙ ap (λ x. dispatched none x (after_stream m (c ∷ cs) (given i con))) whole,
      refl,
      ap (λ j. release_id j (i ∷ con.in_use_streams)) (numbered_id t p i con rc r.size w lo hi)
          ∙ release_id-first i con.in_use_streams unused,
      serve-wire fuel f clock n rc start ss (numbered_frames con.entropy con.drawn ms) rest bytes
          (stream-Arrives t p i con rc r.size w lo hi con.drawn (c ∷ cs) fit) refl,
      subst (λ x. IsTransfer i x rc rc') whole
          (stream-IsTransfer t p i con rc r.size w lo hi clock n c cs),
    )
