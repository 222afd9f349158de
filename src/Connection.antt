-- ===== src/Connection.antt =====
-- connection.go: the state of a connection. Maps are association lists without repeated keys. What
-- the connection does to the outside is kept in the state: the frames that it wrote to the network,
-- and the calls of handlers that it made. `entropy n` is the n-th result of `createMask`.
pub mod Maps
pub mod Events
pub mod Streams
pub mod Write
pub mod Receive
pub mod Close
pub mod Start
pub mod Ping
pub mod Bound
pub mod Transfer
use webson.Common.{
  ℕ, ◌+◌, ◌≡◌, Bool, true, false, if◌then◌else◌, ◌==◌, List, [], ◌∷◌, Option, none, some,
}
use webson.Errors.{Status, status_yet_ready, Error}
use webson.Message.{Message, MessageType, NegoSet, MsgConfig, ping_message, pong_message}
use webson.Config.{Config, NodeConfig}

-- A function bound by `OnStatus` or `OnReady`; the number names the user's function.
pub data StatusAction : Type 0 where
  on_status : ℕ → StatusAction
  on_ready : ℕ → StatusAction

-- A function bound by `OnMessage`: the two that `prepare` binds, or the user's. Bound has what they do.
pub data MessageAction : Type 0 where
  reply_pong refresh_pong : MessageAction
  on_message : ℕ → MessageAction

-- A call of a handler. `inline` calls run at once, the others on a goroutine of their own. A status
-- function gets the status before the change, an event handler the new one.
pub data Call : Type 0 where
  calls_status : StatusAction → Status → Call
  calls_message : MessageAction → Message → Bool → Call
  handler_status : List ℕ → Status → Call
  handler_message : List ℕ → Message → Bool → Call

pub record Connection : Type 0 where
  pub pending_streams : List (ℕ × Message)
  pub in_use_streams : List ℕ
  pub last_stream : ℕ
  pub stream_id_locked : Bool
  pub is_client : Bool
  pub status : Status
  pub start_close : Bool
  pub closed : Bool
  pub last_ping : ℕ
  pub last_pong : ℕ
  pub config : Config
  pub node : Option NodeConfig
  pub nego : NegoSet
  pub status_event_map : List (Status × StatusAction)
  pub message_event_map : List (MessageType × MessageAction)
  pub event_pool : List (List ℕ)
  pub raw_closed : Bool
  pub raw_error : Option Error
  pub wire : List (List ℕ)
  pub calls : List Call
  pub entropy : ℕ → List ℕ
  pub drawn : ℕ

-- `m[k] = v`, `delete(m, k)` and `m[k]`.
module _ {ℓ} {V : Type ℓ} where
  unfoldable pub lookup : ℕ → List (ℕ × V) → Option V
  lookup k [] = none
  lookup k ((j, v) ∷ m) = if j == k then some v else lookup k m

  unfoldable pub delete : ℕ → List (ℕ × V) → List (ℕ × V)
  delete k [] = []
  delete k ((j, v) ∷ m) = if j == k then delete k m else (j, v) ∷ delete k m

  unfoldable pub insert : ℕ → V → List (ℕ × V) → List (ℕ × V)
  unfolding delete
  insert k v m = (k, v) ∷ delete k m

-- `prepare` up to the start of the ping loop: it binds the two default handlers, and clears the maps.
unfoldable pub prepare : Connection → Connection
prepare con = record con {
  status = status_yet_ready;
  status_event_map = [];
  message_event_map = (pong_message, refresh_pong) ∷ (ping_message, reply_pong) ∷ [];
  pending_streams = [];
  in_use_streams = [];
}

unfoldable pub group : Connection → List ℕ
group con = elim con.node [ none ↦ [] | some n ↦ n.group ]

unfoldable pub name : Connection → List ℕ
name con = elim con.node [ none ↦ [] | some n ↦ n.name ]
