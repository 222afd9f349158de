-- ===== src/Connection/Transfer/Sequence.antt =====
-- The frames of one message, delivered one behind the other.
use webson.Common.{
  ℕ, ◌≡◌, refl, ap, sym, ◌∙◌, true, false, ◌==◌, Bool-cases, inl, inr, List, [], ◌∷◌, ◌++◌, none,
  All, arith,
}
use mathlib.Core.List.{append-nil}
use webson.Message.{Message}
use webson.Message.Collect.Delivery.{entities}
use webson.Connection.{Connection, lookup, delete}
use webson.Connection.Events.{trigger_message}
use webson.Connection.Receive.{deliver, deliver_data, cancel_stream}
use webson.Connection.Receive.Reassembly.{IsPart, deliver_all, handed_over, deliver_all-handed_over}

-- The frames of one message, the last one final.
abbrev pub IsSequence : ℕ → List Message → Type 0
IsSequence i [] = ⊥
IsSequence i (m ∷ []) = IsPart i true m
IsSequence i (m ∷ n ∷ ms) = IsPart i false m × IsSequence i (n ∷ ms)

pub parts :
    (i : ℕ) (m : Message) (ms : List Message)
    → IsSequence i (m ∷ ms)
    → (fs : List Message) × (last : Message) × (m ∷ ms ≡ fs ++ (last ∷ []))
      × All (IsPart i false) fs
      × IsPart i true last
parts i m [] h = ([], m, refl, tt, h)
parts i m (n ∷ ms) (h, hs) =
    let (fs, last, e, ps, l) = parts i n ms hs in (m ∷ fs, last, ap (◌∷◌ m) e, (h, ps), l)

pub delete-absent : (i : ℕ) (m : List (ℕ × Message)) → lookup i m ≡ none → delete i m ≡ m
unfolding lookup delete
delete-absent i [] h = refl
delete-absent i ((j, v) ∷ m) h = elim (Bool-cases (j == i)) [
  | inl e ↦ absurd (ground arith)
  | inr e ↦ let rest = delete-absent i m (ground arith) in ground arith
]

-- What the receiver's handlers get: one complete message, with the bytes `p`.
abbrev pub IsTransfer : ℕ → List ℕ → Connection → Connection → Type 0
IsTransfer i p con con' =
    (m : Message) × (con' ≡ handed_over i m con) × (m.entity ≡ p) × (m.is_complete ≡ true)

pub deliver-single :
    (i : ℕ) (m : Message) (con : Connection)
    → lookup i con.pending_streams ≡ none
    → IsPart i true m
    → (deliver m false con).0 ≡ trigger_message m con
unfolding deliver deliver_data cancel_stream
deliver-single i m con e q =
    let data_frame = q.data_frame in
    let flag = q.flag in
    let here : lookup m.receive.stream_id con.pending_streams ≡ none =
      ap (λ j. lookup j con.pending_streams) q.of_stream ∙ e in
    ground arith

pub single-handed_over :
    (i : ℕ) (m : Message) (con : Connection)
    → lookup i con.pending_streams ≡ none
    → trigger_message m con ≡ handed_over i m con
unfolding trigger_message
single-handed_over i m con e =
    ap (λ t. record (trigger_message m con) { pending_streams = t })
      (sym (delete-absent i con.pending_streams e))

pub deliver_all_one :
    (m : Message) (con : Connection) → deliver_all (m ∷ []) con ≡ (deliver m false con).0
unfolding deliver_all
deliver_all_one m con = refl

pub sequence-IsTransfer :
    (i : ℕ) (m : Message) (ms : List Message) (con : Connection)
    → con.config.trigger_on_start ≡ false
    → lookup i con.pending_streams ≡ none
    → m.receive.pool_reading ≡ false
    → IsSequence i (m ∷ ms)
    → IsTransfer i (entities (m ∷ ms)) con (deliver_all (m ∷ ms) con)
sequence-IsTransfer i m [] con s e r h = (
  m,
  deliver_all_one m con ∙ deliver-single i m con e h ∙ single-handed_over i m con e,
  sym (append-nil m.entity),
  h.flag,
)
sequence-IsTransfer i m (n ∷ ms) con s e r (h, hs) =
    let (fs, last, q, ps, l) = parts i n ms hs in
    let (whole, same, (entity, complete, compressed, stream), gone) =
      deliver_all-handed_over i m fs last con s e h ps l r in
    (
      whole,
      ap (λ t. deliver_all (m ∷ t) con) q ∙ same,
      entity ∙ ap (λ t. m.entity ++ entities t) (sym q),
      complete,
    )
