-- ===== src/Connection/Events.antt =====
-- connection.go: handlers and the state machine of the status.
pub mod Changes
use webson.Common.{
  ℕ, ◌≡◌, Bool, true, false, not, ◌&&◌, if◌then◌else◌, ◌==◌, bytes_eq, List, [], ◌∷◌, ◌++◌, Option,
  none, some, map,
}
use webson.Errors.{Status, status_eq, status_ready, status_yet_ready}
use webson.Message.{Message, MessageType}
use webson.Connection.{
  Connection, StatusAction, MessageAction, Call, on_status, on_ready, calls_status, calls_message,
  handler_status, handler_message, lookup, insert,
}

-- Handlers of a pool are known by their name.
unfoldable pub apply : List ℕ → Connection → Connection
apply handler con = record con { event_pool = event_pool ++ (handler ∷ []) }
  where
    open con use {event_pool}

-- The first handler of the name is taken out.
unfoldable pub remove_first : List ℕ → List (List ℕ) → List (List ℕ)
remove_first name [] = []
remove_first name (h ∷ pool) = if bytes_eq h name then pool else h ∷ remove_first name pool

unfoldable pub revoke : List ℕ → Connection → Connection
unfolding remove_first
revoke name con = record con { event_pool = remove_first name event_pool }
  where
    open con use {event_pool}

unfoldable pub status_lookup : Status → List (Status × StatusAction) → Option StatusAction
status_lookup s [] = none
status_lookup s ((t, a) ∷ m) = if status_eq t s then some a else status_lookup s m

unfoldable pub status_delete : Status → List (Status × StatusAction) → List (Status × StatusAction)
status_delete s [] = []
status_delete s ((t, a) ∷ m) =
    if status_eq t s then status_delete s m else (t, a) ∷ status_delete s m

unfoldable pub bind_status : Status → StatusAction → Connection → Connection
unfolding status_delete
bind_status s action con = record con {
  status_event_map = (s, action) ∷ status_delete s status_event_map;
}
  where
    open con use {status_event_map}

unfoldable pub bind_ready : ℕ → Connection → Connection
unfolding bind_status
bind_ready action con = bind_status status_ready (on_ready action) con

-- The user's function that a bound function calls, when the status before the change was `prev`.
unfoldable pub called_action : StatusAction → Status → Option ℕ
called_action (on_status action) prev = some action
called_action (on_ready action) prev =
    if not (status_eq prev status_yet_ready) then none else some action

unfoldable pub bind_message : MessageType → MessageAction → Connection → Connection
unfolding insert
bind_message t action con = record con { message_event_map = insert t action message_event_map }
  where
    open con use {message_event_map}

unfoldable pub status_calls : Status → Status → Connection → List Call
unfolding status_lookup
status_calls prev s con =
    let pool = map (λ h. handler_status h s) con.event_pool in
    elim (status_lookup s con.status_event_map) [
      | none ↦ pool
      | some action ↦ calls_status action prev ∷ pool
    ]

-- A status that is set already triggers nothing.
unfoldable pub update_status : Status → Connection → Connection
unfolding status_calls
update_status s con =
    if status_eq con.status s
    then con
    else record con { status = s; calls = con.calls ++ status_calls con.status s con }

unfoldable pub message_calls : Message → Connection → List Call
unfolding lookup
message_calls m con =
    let inline = con.config.synchronize in
    let pool = map (λ h. handler_message h m inline) con.event_pool in
    elim (lookup m.msg_type con.message_event_map) [
      | none ↦ pool
      | some action ↦ calls_message action m inline ∷ pool
    ]

unfoldable pub trigger_message : Message → Connection → Connection
unfolding message_calls
trigger_message m con = record con { calls = calls ++ message_calls m con }
  where
    open con use {calls}
