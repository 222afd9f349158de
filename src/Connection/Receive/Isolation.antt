-- ===== src/Connection/Receive/Isolation.antt =====
-- The frames of several streams, one among the other, as `Start` delivers them.
pub mod Frames
pub mod Keys
pub mod Streams
pub mod Messages
use webson.Common.{
  ℕ, ◌≡◌, refl, ap, ap₂, sym, ◌∙◌, Bool, true, false, Bool-cases, Option-cases, inl, inr, ◌==◌,
  ==_refl, if◌then◌else◌, List, [], ◌∷◌, ◌++◌, Option, none, some, map, arith,
}
use mathlib.Core.List.{append-nil}
use webson.Message.{Message, MessageType, is_control}
use webson.Message.Collect.{merge}
use webson.Config.{Config}
use webson.Connection.{
  Connection, Call, calls_status, calls_message, handler_status, handler_message, MessageAction,
  lookup, insert, delete,
}
use webson.Connection.Maps.{lookup-insert, lookup-delete, lookup-insert_other, lookup-delete_other}
use webson.Connection.Events.{trigger_message, message_calls}
use webson.Connection.Receive.{deliver, deliver_data, cancel_stream}

abbrev pub stream_of : Message → ℕ
stream_of m = m.receive.stream_id

-- A call that hands over a message of the stream.
abbrev pub is_heard : ℕ → Call → Bool
is_heard i (calls_status a s) = false
is_heard i (handler_status n s) = false
is_heard i (calls_message a m b) = stream_of m == i
is_heard i (handler_message n m b) = stream_of m == i

unfoldable pub heard : ℕ → List Call → List Call
heard i [] = []
heard i (c ∷ cs) = if is_heard i c then c ∷ heard i cs else heard i cs

-- The frames with what their cancel bit says, one after the other.
unfoldable pub deliver_each : List (Message × Bool) → Connection → Connection
deliver_each [] con = con
deliver_each ((m, cancel) ∷ ms) con = deliver_each ms (deliver m cancel con).0

unfoldable pub only_stream : ℕ → List (Message × Bool) → List (Message × Bool)
only_stream i [] = []
only_stream i ((m, cancel) ∷ ms) =
    if stream_of m == i then (m, cancel) ∷ only_stream i ms else only_stream i ms

pub heard-append : (i : ℕ) (xs ys : List Call) → heard i (xs ++ ys) ≡ heard i xs ++ heard i ys
unfolding heard
heard-append i [] ys = refl
heard-append i (c ∷ xs) ys = elim (Bool-cases (is_heard i c)) [
  | inl e ↦ rw e (ap (λ t. c ∷ t) (heard-append i xs ys))
  | inr e ↦ rw e (heard-append i xs ys)
]

heard_handlers :
    (i : ℕ) (m : Message) (inline : Bool) (hs : List (List ℕ))
    → (stream_of m == i) ≡ false
    → heard i (map (λ h. handler_message h m inline) hs) ≡ []
unfolding heard
heard_handlers i m inline [] h = refl
heard_handlers i m inline (x ∷ hs) h = rw h (heard_handlers i m inline hs h)

heard_calls :
    (i : ℕ) (m : Message) (inline : Bool) (hs : List (List ℕ)) (o : Option MessageAction)
    → (stream_of m == i) ≡ false
    → heard i (elim o [
      | none ↦ map (λ h. handler_message h m inline) hs
      | some action ↦ calls_message action m inline ∷ map (λ h. handler_message h m inline) hs
    ])
      ≡ []
unfolding heard
heard_calls i m inline hs none h = heard_handlers i m inline hs h
heard_calls i m inline hs (some action) h = rw h (heard_handlers i m inline hs h)

-- The handlers of another stream's message are not heard.
heard-message_calls :
    (i : ℕ) (m : Message) (con : Connection)
    → (stream_of m == i) ≡ false
    → heard i (message_calls m con) ≡ []
unfolding message_calls
heard-message_calls i m con h =
    heard_calls i m con.config.synchronize con.event_pool (lookup m.msg_type con.message_event_map)
      h

pub stream_of-merge : (p m : Message) → stream_of (merge p m) ≡ stream_of p
unfolding merge
stream_of-merge p m = ground arith

-- Two connections that look the same to the stream `i`.
pub record IsAlike (i : ℕ) (a b : Connection) : Type 0 where
  pub pending : lookup i a.pending_streams ≡ lookup i b.pending_streams
  pub hears : heard i a.calls ≡ heard i b.calls
  pub config : a.config ≡ b.config
  pub handlers : a.event_pool ≡ b.event_pool
  pub bound : a.message_event_map ≡ b.message_event_map

-- What the calls depend on.
calls_of : Message → Bool → List (List ℕ) → List (MessageType × MessageAction) → List Call
calls_of m inline pool bound = elim (lookup m.msg_type bound) [
  | none ↦ map (λ h. handler_message h m inline) pool
  | some action ↦ calls_message action m inline ∷ map (λ h. handler_message h m inline) pool
]

message_calls-calls_of :
    (m : Message) (con : Connection)
    → message_calls m con ≡ calls_of m con.config.synchronize con.event_pool con.message_event_map
unfolding message_calls calls_of
message_calls-calls_of m con = refl

same_calls :
    (i : ℕ) (m : Message) (a b : Connection) → IsAlike i a b → message_calls m a ≡ message_calls m b
same_calls i m a b h =
    message_calls-calls_of m a
    ∙ ap (λ c. calls_of m c.synchronize a.event_pool a.message_event_map) h.config
    ∙ ap₂ (λ p q. calls_of m b.config.synchronize p q) h.handlers h.bound
    ∙ sym (message_calls-calls_of m b)

pub trigger-IsAlike :
    (i : ℕ) (m : Message) (a b : Connection)
    → IsAlike i a b
    → IsAlike i (trigger_message m a) (trigger_message m b)
unfolding trigger_message
trigger-IsAlike i m a b h = record {
  pending = h.pending;
  hears =
      heard-append i a.calls (message_calls m a)
      ∙ ap₂ ◌++◌ h.hears (ap (heard i) (same_calls i m a b h))
      ∙ sym (heard-append i b.calls (message_calls m b));
  config = h.config;
  handlers = h.handlers;
  bound = h.bound;
}

pub trigger-IsAlike_other :
    (i : ℕ) (m : Message) (a b : Connection)
    → (stream_of m == i) ≡ false
    → IsAlike i a b
    → IsAlike i (trigger_message m a) b
unfolding trigger_message
trigger-IsAlike_other i m a b other h = record {
  pending = h.pending;
  hears =
      heard-append i a.calls (message_calls m a)
      ∙ ap (λ t. heard i a.calls ++ t) (heard-message_calls i m a other)
      ∙ append-nil (heard i a.calls)
      ∙ h.hears;
  config = h.config;
  handlers = h.handlers;
  bound = h.bound;
}

-- Another list of messages under way.
abbrev pub with_pending : List (ℕ × Message) → Connection → Connection
with_pending p con = record con { pending_streams = p }

pub pending-IsAlike :
    (i : ℕ) (a b : Connection) (p q : List (ℕ × Message))
    → IsAlike i a b
    → lookup i p ≡ lookup i q
    → IsAlike i (with_pending p a) (with_pending q b)
pending-IsAlike i a b p q h e = record {
  pending = e;
  hears = h.hears;
  config = h.config;
  handlers = h.handlers;
  bound = h.bound;
}

pub if-IsAlike :
    (i : ℕ) (s : Bool) (a a' b b' : Connection)
    → IsAlike i a b
    → IsAlike i a' b'
    → IsAlike i (if s then a else a') (if s then b else b')
if-IsAlike i true a a' b b' h k = h
if-IsAlike i false a a' b b' h k = k

pub if-left :
    (i : ℕ) (s : Bool) (a a' b : Connection)
    → IsAlike i a b
    → IsAlike i a' b
    → IsAlike i (if s then a else a') b
if-left i true a a' b h k = h
if-left i false a a' b h k = k
