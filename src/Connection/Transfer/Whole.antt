-- ===== src/Connection/Transfer/Whole.antt =====
-- A message from `Dispatch` to the handler.
use webson.Common.{
  ℕ, suc, ◌+◌, ◌≡◌, refl, ap, sym, ◌∙◌, false, List, [], ◌∷◌, ◌++◌, none, All, length, flatten, map,
  arith,
}
use webson.Message.{Message, MessageType}
use webson.Message.Assemble.{Flate}
use webson.Message.Mask.{set_mask}
use webson.Message.Split.Chunks.{cut, frames}
use webson.Message.Split.Laws.{frames-payloads, cut-cons, cut-Fits, flatten-cut}
use webson.Message.Collect.Delivery.{entities}
use webson.Connection.{Connection, lookup}
use webson.Connection.Write.Frames.{sent_frames, next_mask}
use webson.Connection.Write.Wire.{outgoing, outgoing_frames}
use webson.Connection.Receive.{incoming, with_size, with_stream_id}
use webson.Connection.Receive.Steps.{with_buffer}
use webson.Connection.Receive.Reassembly.{deliver_all}
use webson.Connection.Start.{serve}
use webson.Connection.Start.Frames.{Sent, received, deliver_sent}
use webson.Reader.{Reader}
use webson.Connection.Transfer.Made.{
  serve-wire, on_the_way, bytes-on_the_way, made, deliver_sent-made,
}
use webson.Connection.Transfer.Sequence.{IsSequence, IsTransfer, sequence-IsTransfer}
use webson.Connection.Write.{dispatch, dispatched}
use webson.Connection.Write.Frames.{after_frames, left_behind}
use webson.Connection.Write.Wire.{dispatch_lem, frames-IsPlain}
use webson.Connection.Transfer.Linked.{IsLinked, frames-Arrives, frames-NoCancel, made-IsSequence}

pub entities-made :
    (clock : ℕ → ℕ) (n : ℕ) (rc : Connection) (masks : ℕ → List ℕ) (k : ℕ) (ms : List Message)
    → entities (made clock n rc (on_the_way masks k ms)) ≡ flatten (map (λ x. x.payload) ms)
unfolding made on_the_way
entities-made clock n rc masks k [] = refl
entities-made clock n rc masks k (m ∷ ms) =
    ap (λ t. m.payload ++ t) (entities-made clock (suc n) rc masks (next_mask m k) ms)

abbrev pub NotReading : Message → Type 0
NotReading m = m.receive.pool_reading ≡ false

received-NotReading : (con : Connection) (now : ℕ) (s : Sent) → NotReading (received con now s)
unfolding set_mask with_size with_stream_id incoming
received-NotReading con now s = ground arith

pub made-NotReading :
    (clock : ℕ → ℕ) (n : ℕ) (rc : Connection) (ss : List Sent) → All NotReading (made clock n rc ss)
unfolding made
made-NotReading clock n rc [] = tt
made-NotReading clock n rc (s ∷ ss) =
    (received-NotReading rc (clock n) s, made-NotReading clock (suc n) rc ss)

pub list-IsTransfer :
    (i : ℕ) (ms : List Message) (con : Connection)
    → con.config.trigger_on_start ≡ false
    → lookup i con.pending_streams ≡ none
    → All NotReading ms
    → IsSequence i ms
    → IsTransfer i (entities ms) con (deliver_all ms con)
list-IsTransfer i [] con s e r h = absurd h
list-IsTransfer i (m ∷ ms) con s e (r, rs) h = sequence-IsTransfer i m ms con s e r h

-- The frames that `Dispatch` puts on the network.
abbrev pub wire_frames : MessageType → List ℕ → Connection → List (List ℕ)
wire_frames t p con = sent_frames con.entropy con.drawn (outgoing_frames t p con)

pub chunks-IsTransfer :
    (t : MessageType) (p c : List ℕ) (cs : List (List ℕ)) (con rc : Connection) (size : ℕ)
    (clock : ℕ → ℕ) (n : ℕ)
    → IsLinked t p con rc size
    → IsTransfer 0 (flatten (c ∷ cs)) rc (
        deliver_sent clock n
          (on_the_way con.entropy con.drawn (frames (outgoing t p con) (c ∷ cs)))
          rc)
chunks-IsTransfer t p c cs con rc size clock n w =
    let m = outgoing t p con in
    let ss = on_the_way con.entropy con.drawn (frames m (c ∷ cs)) in
    let ordered : IsSequence 0 (made clock n rc ss) =
      made-IsSequence t p con rc size w clock n con.drawn c cs in
    let (whole, same, entity, complete) =
      list-IsTransfer 0 (made clock n rc ss) rc w.waits w.idle (made-NotReading clock n rc ss)
        ordered in
    (
      whole,
      deliver_sent-made clock n ss rc rc (refl, refl, refl)
            (frames-NoCancel t p con rc size w con.drawn (c ∷ cs))
          ∙ same,
      entity
          ∙ entities-made clock n rc con.entropy con.drawn (frames m (c ∷ cs))
          ∙ ap flatten (frames-payloads m (c ∷ cs)),
      complete,
    )

frames-IsTransfer :
    (t : MessageType) (p : List ℕ) (con rc : Connection) (size : ℕ) (clock : ℕ → ℕ) (n : ℕ)
    → IsLinked t p con rc size
    → IsTransfer 0 p rc
        (deliver_sent clock n (on_the_way con.entropy con.drawn (outgoing_frames t p con)) rc)
frames-IsTransfer t p con rc size clock n w =
    let limit = con.config.chunk_size in
    let (c, cs, e) = cut-cons (length p) limit p in
    let (whole, same, entity, complete) = chunks-IsTransfer t p c cs con rc size clock n w in
    (
      whole,
      ap
            (λ x.
              deliver_sent clock n (on_the_way con.entropy con.drawn (frames (outgoing t p con) x))
                rc)
            e
          ∙ same,
      entity ∙ ap flatten (sym e) ∙ flatten-cut (length p) limit p,
      complete,
    )

-- A data message on a connection without streams and compression, whose sender works and whose
-- receiver has room for its chunks, nothing pending and handlers that wait for the whole of a
-- message: Dispatch succeeds and appends the frames to what was written, and once they are in the
-- buffer of the receiver, with any bytes behind them, the loop of Start takes one round for each
-- and calls the handlers exactly once, with a complete message that has the bytes that were sent.
pub dispatch-IsTransfer :
    (f : Flate) (t : MessageType) (p : List ℕ) (con rc : Connection) (r : Reader) (rest : List ℕ)
    (fuel : ℕ) (clock : ℕ → ℕ) (n : ℕ)
    → IsLinked t p con rc r.size
    → r.buffered ≡ flatten (wire_frames t p con) ++ rest
    → (left : List ℕ) × (con' rc' : Connection) × (dispatch f t p con ≡ dispatched none left con')
      × (con'.wire ≡ con.wire ++ wire_frames t p con)
      × (serve (length (wire_frames t p con) + fuel) f clock n rc r
          ≡ serve fuel f clock (n + length (wire_frames t p con)) rc' (with_buffer rest r))
      × IsTransfer 0 p rc rc'
dispatch-IsTransfer f t p con rc r rest fuel clock n w e =
    let ms = outgoing_frames t p con in
    let ss = on_the_way con.entropy con.drawn ms in
    let limit = con.config.chunk_size in
    let plain =
      frames-IsPlain (outgoing t p con) (cut (length p) limit p) w.no_stream w.no_compress in
    let bytes = bytes-on_the_way con.entropy con.drawn ms plain in
    let rc' = deliver_sent clock n ss rc in
    (
      left_behind con.entropy con.drawn ms,
      after_frames ms con,
      rc',
      dispatch_lem f t p con w.no_stream w.no_compress w.chunks w.writable,
      refl,
      serve-wire fuel f clock n rc r ss (wire_frames t p con) rest bytes
          (frames-Arrives t p con rc r.size w con.drawn (cut (length p) limit p)
            (cut-Fits (length p) limit p w.chunks (omega arith)))
          e,
      frames-IsTransfer t p con rc r.size clock n w,
    )
