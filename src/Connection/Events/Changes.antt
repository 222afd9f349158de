-- ===== src/Connection/Events/Changes.antt =====
-- The state machine of the status, and who hears of a change.
use webson.Common.{◌≡◌, refl, inl, inr, true, Bool-cases}
use webson.Errors.{Status, status_eq, status_yet_ready, status_ready, status_closed, status_timeout}
use webson.Connection.{Connection}
use webson.Connection.Events.{update_status}

pub status_eq→eq : (s t : Status) → status_eq s t ≡ true → s ≡ t
status_eq→eq status_yet_ready status_yet_ready h = refl
status_eq→eq status_ready status_ready h = refl
status_eq→eq status_closed status_closed h = refl
status_eq→eq status_timeout status_timeout h = refl
status_eq→eq _ _ h = cc

pub status_eq_refl : (s : Status) → status_eq s s ≡ true
status_eq_refl status_yet_ready = refl
status_eq_refl status_ready = refl
status_eq_refl status_closed = refl
status_eq_refl status_timeout = refl

pub update_status-status : (s : Status) (con : Connection) → (update_status s con).status ≡ s
unfolding update_status
update_status-status s con = elim (Bool-cases (status_eq con.status s)) [
  | inl e ↦ rw e (status_eq→eq con.status s e)
  | inr e ↦ rw e
]

update_status_same :
    (s : Status) (con : Connection) → status_eq con.status s ≡ true → update_status s con ≡ con
unfolding update_status
update_status_same s con h = rw h

-- After updateStatus the status is the one that was set, and setting it again changes nothing, so
-- that no handler hears of it a second time.
pub update_status_twice :
    (s : Status) (con : Connection)
    → ((update_status s con).status ≡ s)
      × (update_status s (update_status s con) ≡ update_status s con)
update_status_twice s con = (
  update_status-status s con,
  update_status_same s (update_status s con) (rw (update_status-status s con) (status_eq_refl s)),
)
