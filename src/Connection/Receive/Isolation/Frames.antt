-- ===== src/Connection/Receive/Isolation/Frames.antt =====
-- A data frame, seen from its own stream and from another one.
use webson.Common.{
  ℕ, ◌≡◌, refl, ap, sym, ◌∙◌, Bool, false, Option-cases, inl, inr, ◌==◌, if◌then◌else◌, List, none,
  some,
}
use webson.Message.{Message}
use webson.Message.Collect.{merge}
use webson.Connection.{Connection, lookup, insert, delete}
use webson.Connection.Maps.{lookup-insert, lookup-delete, lookup-insert_other, lookup-delete_other}
use webson.Connection.Events.{trigger_message}
use webson.Connection.Receive.{deliver_data}
use webson.Connection.Receive.Isolation.{
  stream_of, IsAlike, trigger-IsAlike, trigger-IsAlike_other, pending-IsAlike, if-IsAlike, if-left,
  with_pending, stream_of-merge,
}
use webson.Connection.Receive.Isolation.Keys.{IsKeyed}

-- A data frame for a stream on which a message is pending, and for one without.
pub deliver_data-some :
    (m p : Message) (start : Bool) (con : Connection)
    → con.config.trigger_on_start ≡ start
    → lookup (stream_of m) con.pending_streams ≡ some p
    → deliver_data m con ≡ (
        if m.is_complete
        then with_pending
            (delete (stream_of m) con.pending_streams)
            (if start then con else trigger_message (merge p m) con)
        else with_pending (insert (stream_of m) (merge p m) con.pending_streams) con)
unfolding deliver_data
deliver_data-some m p start con s e = rw (e, s, deliver_data) refl

pub deliver_data-none :
    (m : Message) (start : Bool) (con : Connection)
    → con.config.trigger_on_start ≡ start
    → lookup (stream_of m) con.pending_streams ≡ none
    → deliver_data m con ≡ (
        if m.is_complete
        then trigger_message m con
        else if start
        then trigger_message m (with_pending (insert (stream_of m) m con.pending_streams) con)
        else with_pending (insert (stream_of m) m con.pending_streams) con)
unfolding deliver_data
deliver_data-none m start con s e = rw (e, s, deliver_data) refl

insert-IsAlike :
    (i : ℕ) (m p : Message) (a b : Connection)
    → stream_of m ≡ i
    → IsAlike i a b
    → IsAlike i
        (with_pending (insert (stream_of m) p a.pending_streams) a)
        (with_pending (insert (stream_of m) p b.pending_streams) b)
insert-IsAlike i m p a b own h = pending-IsAlike i a b _ _ h (
    ap (λ j. lookup i (insert j p a.pending_streams)) own
    ∙ lookup-insert i p a.pending_streams
    ∙ sym (lookup-insert i p b.pending_streams)
    ∙ ap (λ j. lookup i (insert j p b.pending_streams)) (sym own))

pub delete-IsAlike :
    (i : ℕ) (m : Message) (ps qs : List (ℕ × Message)) (a b : Connection)
    → stream_of m ≡ i
    → IsAlike i a b
    → IsAlike i
        (with_pending (delete (stream_of m) ps) a)
        (with_pending (delete (stream_of m) qs) b)
delete-IsAlike i m ps qs a b own h = pending-IsAlike i a b _ _ h (
    ap (λ j. lookup i (delete j ps)) own
    ∙ lookup-delete i ps
    ∙ sym (lookup-delete i qs)
    ∙ ap (λ j. lookup i (delete j qs)) (sym own))

-- A frame of the stream does the same to both.
pub data_same :
    (i : ℕ) (m : Message) (a b : Connection)
    → stream_of m ≡ i
    → IsAlike i a b
    → IsAlike i (deliver_data m a) (deliver_data m b)
data_same i m a b own h =
    let start = b.config.trigger_on_start in
    let s : a.config.trigger_on_start ≡ start = ap (λ c. c.trigger_on_start) h.config in
    let same : lookup (stream_of m) a.pending_streams ≡ lookup (stream_of m) b.pending_streams =
      rw own h.pending in
    elim (Option-cases (lookup (stream_of m) a.pending_streams)) [
      | inl e ↦
          let put = insert-IsAlike i m m a b own h in
          let all =
            if-IsAlike i m.is_complete _ _ _ _ (trigger-IsAlike i m a b h)
              (if-IsAlike i start _ _ _ _ (trigger-IsAlike i m _ _ put) put) in
          rw (deliver_data-none m start a s e, deliver_data-none m start b refl (sym same ∙ e)) all
      | inr (p, e) ↦
          let merged = trigger-IsAlike i (merge p m) a b h in
          let all =
            if-IsAlike i m.is_complete _ _ _ _
              (delete-IsAlike i m a.pending_streams b.pending_streams _ _ own
                (if-IsAlike i start a _ b _ h merged))
              (insert-IsAlike i m (merge p m) a b own h) in
          rw (deliver_data-some m p start a s e, deliver_data-some m p start b refl (sym same ∙ e))
            all
    ]

-- A frame of another stream changes nothing.
pub data_other :
    (i : ℕ) (m : Message) (a b : Connection)
    → (stream_of m == i) ≡ false
    → IsKeyed a
    → IsAlike i a b
    → IsAlike i (deliver_data m a) b
data_other i m a b other keyed h =
    let start = a.config.trigger_on_start in
    elim (Option-cases (lookup (stream_of m) a.pending_streams)) [
      | inl e ↦
          let put =
            pending-IsAlike i a b (insert (stream_of m) m a.pending_streams) b.pending_streams h
              (lookup-insert_other i (stream_of m) m a.pending_streams other ∙ h.pending) in
          let all =
            if-left i m.is_complete _ _ b (trigger-IsAlike_other i m a b other h)
              (if-left i start _ _ b (trigger-IsAlike_other i m _ b other put) put) in
          rw (deliver_data-none m start a refl e) all
      | inr (p, e) ↦
          let theirs : (stream_of (merge p m) == i) ≡ false =
            rw (stream_of-merge p m, keyed (stream_of m) p e) other in
          let merged = trigger-IsAlike_other i (merge p m) a b theirs h in
          let gone =
            pending-IsAlike i _ b (delete (stream_of m) a.pending_streams) b.pending_streams
              (if-left i start a _ b h merged)
              (lookup-delete_other i (stream_of m) a.pending_streams other ∙ h.pending) in
          let put =
            pending-IsAlike i a b (insert (stream_of m) (merge p m) a.pending_streams)
              b.pending_streams h
              (lookup-insert_other i (stream_of m) (merge p m) a.pending_streams other
                ∙ h.pending) in
          rw (deliver_data-some m p start a refl e) (if-left i m.is_complete _ _ b gone put)
    ]
