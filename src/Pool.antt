-- ===== src/Pool.antt =====
-- pool.go: the state of a pool. A connection is known by its reference, a number; `cons` is the store
-- that the references point into. `entry_map` is an association list without repeated keys, in the
-- order in which an iteration visits it. Every operation holds `poolLock`, so it is one step.
pub mod Members
pub mod Broadcast
pub mod Run
pub mod Steps
use webson.Common.{
  ℕ, ◌+◌, Bool, true, false, not, ◌&&◌, if◌then◌else◌, leb, ◌==◌, bytes_eq, codes, List, [], ◌∷◌,
  ◌++◌, Option, none, some, length, map,
}
use webson.Errors.{Error, new_error, Status}
use webson.Message.{Message}
use webson.Config.{NodeConfig}
use webson.Connection.{Connection, name}
use webson.Connection.Events.{apply, revoke}

pub record PoolConfig : Type 0 where
  pub name : List ℕ
  pub size : ℕ
  pub client_retry : ℕ
  pub retry_interval : ℕ

-- `started` lists the connections that got a goroutine of their own. A handler is a number.
pub record Pool : Type 0 where
  pub clients : List ℕ
  pub servers : List ℕ
  pub config : PoolConfig
  pub entry_map : List (List ℕ × ℕ)
  pub name : List ℕ
  pub status_handler : Option ℕ
  pub message_handler : Option ℕ
  pub closed : Bool
  pub started : List ℕ
  pub cons : ℕ → Connection

-- `entryMap[n]` and `delete(entryMap, n)`.
unfoldable pub entry : List ℕ → List (List ℕ × ℕ) → Option ℕ
entry n [] = none
entry n ((k, c) ∷ es) = if bytes_eq k n then some c else entry n es

unfoldable pub delete_entry : List ℕ → List (List ℕ × ℕ) → List (List ℕ × ℕ)
delete_entry n [] = []
delete_entry n ((k, c) ∷ es) =
    if bytes_eq k n then delete_entry n es else (k, c) ∷ delete_entry n es

-- A write through the reference `c`.
unfoldable pub update : ℕ → Connection → (ℕ → Connection) → ℕ → Connection
update c con cons i = if i == c then con else cons i

-- `key` is what `createChallengeKey` returns.
abbrev pub or_key : List ℕ → List ℕ → List ℕ
or_key key [] = key
or_key key (b ∷ bs) = b ∷ bs

unfoldable pub new_pool : List ℕ → Option PoolConfig → (ℕ → Connection) → Pool
new_pool key c cons = record {
  clients = [];
  servers = [];
  config = config;
  entry_map = [];
  name = config.name;
  status_handler = none;
  message_handler = none;
  closed = false;
  started = [];
  cons = cons;
}
  where
    given : PoolConfig
    given = elim c [
      | none ↦ record { name = []; size = 0; client_retry = 0; retry_interval = 0 }
      | some g ↦ g
    ]

    config : PoolConfig
    config = record given { name = or_key key given.name }

unfoldable pub on_status : ℕ → Pool → Pool
on_status action p = record p { status_handler = some action }

unfoldable pub on_message : ℕ → Pool → Pool
on_message action p = record p { message_handler = some action }

-- What the proxy calls when a connection of the pool calls it.
unfoldable pub proxy_status : Pool → Status → Option (ℕ × Status)
proxy_status p s = elim p.status_handler [ none ↦ none | some action ↦ some (action, s) ]

unfoldable pub proxy_message : Pool → Message → Option (ℕ × Message)
proxy_message p m = elim p.message_handler [ none ↦ none | some action ↦ some (action, m) ]

unfoldable pub node_of : List ℕ → Option NodeConfig → NodeConfig
node_of key none = record { name = key; group = [] }
node_of key (some n) = record n { name = or_key key n.name }

-- `c.node = config`, before any check.
unfoldable pub set_node : ℕ → NodeConfig → Pool → Pool
unfolding update
set_node c n p = record p { cons = update c (record (p.cons c) { node = some n }) p.cons }

unfoldable pub is_full : Pool → Bool
is_full p = not (p.config.size == 0) && leb p.config.size (length p.entry_map)

-- The connection takes part: it gets the handler of the pool, an entry and a goroutine.
unfoldable pub enter : ℕ → List ℕ → Pool → Pool
unfolding update apply
enter c n p = record p {
  clients = if (p.cons c).is_client then p.clients ++ (c ∷ []) else p.clients;
  servers = if (p.cons c).is_client then p.servers else p.servers ++ (c ∷ []);
  entry_map = (n, c) ∷ delete_entry n p.entry_map;
  started = c ∷ p.started;
  cons = update c (apply p.name (p.cons c)) p.cons;
}

unfoldable pub add : List ℕ → ℕ → Option NodeConfig → Pool → Option Error × Pool
unfolding node_of set_node entry is_full enter
add key c config p =
    let n = node_of key config in
    let q = set_node c n p in
    elim (entry n.name q.entry_map) [
      | some d ↦ (some (new_error "connection name conflict"), q)
      | none ↦
          if is_full q then (some (new_error "pool size exceeded"), q) else (none, enter c n.name q)
    ]

-- The first connection of the name is cut out of the slice; all of them have a node.
unfoldable pub cut_named : (ℕ → Connection) → List ℕ → List ℕ → List ℕ
cut_named cons n [] = []
cut_named cons n (c ∷ cs) =
    if bytes_eq (webson.Connection.name (cons c)) n then cs else c ∷ cut_named cons n cs

unfoldable pub remove_named : ℕ → List ℕ → Pool → Pool
unfolding delete_entry update cut_named revoke
remove_named c n p = record p {
  clients = if (p.cons c).is_client then cut_named p.cons n p.clients else p.clients;
  servers = if (p.cons c).is_client then p.servers else cut_named p.cons n p.servers;
  entry_map = delete_entry n p.entry_map;
  cons = update c (revoke p.name (p.cons c)) p.cons;
}

-- `none` is the panic on a connection that no `Add` gave a node.
abbrev pub remove_node : ℕ → Pool → Option NodeConfig → Option Pool
remove_node c p none = none
remove_node c p (some n) = some (remove_named c n.name p)

unfoldable pub remove : ℕ → Pool → Option Pool
remove c p = remove_node c p (p.cons c).node

unfoldable pub cast_out : ℕ → Pool → Option Pool
unfolding remove
cast_out c p = remove c p

unfoldable pub cast_out_by_name : List ℕ → Pool → Option (Bool × Pool)
unfolding remove entry
cast_out_by_name n p = elim (entry n p.entry_map) [
  | none ↦ some (false, p)
  | some c ↦ elim (remove c p) [ none ↦ none | some q ↦ some (true, q) ]
]
