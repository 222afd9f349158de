-- ===== src/Connection/Receive/Unfinished.antt =====
-- The frames of a message of which none is final.
use webson.Common.{ℕ, ◌≡◌, refl, ap, sym, ◌∙◌, false, List, [], ◌∷◌, none, All}
use webson.Message.{Message}
use webson.Message.Collect.{merge}
use webson.Message.Collect.Delivery.{merge_all, merge_all-entity, entities, last_flag}
use webson.Connection.{Connection, lookup, insert}
use webson.Connection.Maps.{lookup-insert, delete-insert}
use webson.Connection.Receive.Reassembly.{
  IsPart, deliver_all, deliver-first, deliver-more, deliver_all_cons, deliver_all_nil,
  merge_all_nil,
}

-- The connection with a message that is pending on a stream.
abbrev pub waiting_for : ℕ → Message → Connection → Connection
waiting_for i m con = record con { pending_streams = insert i m con.pending_streams }

waiting_for_twice :
    (i : ℕ) (m p : Message) (con : Connection)
    → waiting_for i m (waiting_for i p con) ≡ waiting_for i m con
unfolding insert
waiting_for_twice i m p con =
    ap (λ t. record con { pending_streams = (i, m) ∷ t }) (delete-insert i p con.pending_streams)

waiting_for_cons :
    (i : ℕ) (p f : Message) (fs : List Message) (con : Connection)
    → waiting_for i (merge_all (merge p f) fs) con ≡ waiting_for i (merge_all p (f ∷ fs)) con
unfolding merge_all
waiting_for_cons i p f fs con = refl

more-waiting_for :
    (i : ℕ) (p : Message) (fs : List Message) (con : Connection)
    → All (IsPart i false) fs
    → deliver_all fs (waiting_for i p con) ≡ waiting_for i (merge_all p fs) con
more-waiting_for i p [] con h =
    deliver_all_nil (waiting_for i p con) ∙ ap (λ m. waiting_for i m con) (sym (merge_all_nil p))
more-waiting_for i p (f ∷ fs) con (h, hs) =
    deliver_all_cons f fs (waiting_for i p con) (waiting_for i (merge p f) con) (
      deliver-more i f p (waiting_for i p con) (lookup-insert i p con.pending_streams) h
      ∙ waiting_for_twice i (merge p f) p con)
    ∙ more-waiting_for i (merge p f) fs con hs
    ∙ waiting_for_cons i p f fs con

not_last :
    (i : ℕ) (m : Message) (ms : List Message)
    → IsPart i false m
    → All (IsPart i false) ms
    → last_flag m.is_complete ms ≡ false
not_last i m [] h hs = h.flag
not_last i m (n ∷ ms) h (k, ks) = not_last i n ms k ks

-- A message that waits for its last frame, with the bytes `p` so far.
abbrev pub IsPending : ℕ → List ℕ → Connection → Connection → Type 0
IsPending i p con con' =
    (m : Message) × (con' ≡ waiting_for i m con) × (m.entity ≡ p) × (m.is_complete ≡ false)

pub deliver_all-IsPending :
    (i : ℕ) (m : Message) (ms : List Message) (con : Connection)
    → con.config.trigger_on_start ≡ false
    → lookup i con.pending_streams ≡ none
    → m.receive.pool_reading ≡ false
    → IsPart i false m
    → All (IsPart i false) ms
    → IsPending i (entities (m ∷ ms)) con (deliver_all (m ∷ ms) con)
deliver_all-IsPending i m ms con s e r h hs =
    let (entity, complete, compressed, pool, config) = merge_all-entity m ms r in
    (
      merge_all m ms,
      deliver_all_cons m ms con (waiting_for i m con) (deliver-first i m con s e h)
          ∙ more-waiting_for i m ms con hs,
      entity,
      complete ∙ not_last i m ms h hs,
    )
