-- ===== src/Connection/Receive/Isolation/Keys.antt =====
-- The streams of the messages that are under way.
use webson.Common.{
  ℕ, ◌≡◌, ap, sym, ◌∙◌, Bool, true, false, Bool-cases, inl, inr, ◌==◌, ==_iff, if◌then◌else◌, none,
  some,
}
use webson.Message.{Message}
use webson.Connection.{Connection, lookup, insert, delete}
use webson.Connection.Maps.{lookup-insert, lookup-delete, lookup-insert_other, lookup-delete_other}
use webson.Connection.Events.{trigger_message}
use webson.Connection.Receive.Isolation.{stream_of, with_pending}

-- Every message that is under way belongs to its stream.
abbrev pub IsKeyed : Connection → Type 0
IsKeyed con = (j : ℕ) (p : Message) → lookup j con.pending_streams ≡ some p → stream_of p ≡ j

pub trigger-IsKeyed :
    (m : Message) (con : Connection) → IsKeyed con → IsKeyed (trigger_message m con)
unfolding trigger_message
trigger-IsKeyed m con h = h

pub insert-IsKeyed :
    (i : ℕ) (m : Message) (con : Connection)
    → stream_of m ≡ i
    → IsKeyed con
    → IsKeyed (with_pending (insert i m con.pending_streams) con)
insert-IsKeyed i m con own h j p e = elim (Bool-cases (i == j)) [
  | inl q ↦
      let same : i ≡ j = (==_iff i j).0 q in
      let here : lookup j (insert i m con.pending_streams) ≡ some m =
        ap (λ k. lookup j (insert k m con.pending_streams)) same
        ∙ lookup-insert j m con.pending_streams in
      let there : m ≡ p = cc in rw (sym there) (own ∙ same)
  | inr q ↦ h j p (sym (lookup-insert_other j i m con.pending_streams q) ∙ e)
]

-- Only the messages under way count.
pub delete-IsKeyed :
    (i : ℕ) (con con' : Connection)
    → IsKeyed con
    → IsKeyed (with_pending (delete i con.pending_streams) con')
delete-IsKeyed i con con' h j p e = elim (Bool-cases (i == j)) [
  | inl q ↦
      let same : i ≡ j = (==_iff i j).0 q in
      let here : lookup j (delete i con.pending_streams) ≡ none =
        ap (λ k. lookup j (delete k con.pending_streams)) same
        ∙ lookup-delete j con.pending_streams in
      absurd cc
  | inr q ↦ h j p (sym (lookup-delete_other j i con.pending_streams q) ∙ e)
]

pub if-IsKeyed :
    (s : Bool) (a b : Connection) → IsKeyed a → IsKeyed b → IsKeyed (if s then a else b)
if-IsKeyed true a b h k = h
if-IsKeyed false a b h k = k
