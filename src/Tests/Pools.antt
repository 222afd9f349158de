-- ===== src/Tests/Pools.antt =====
-- Pools: members, a broadcast, and the goroutine of a client.
use webson.Common.{
  bytes_eq, bytes_eq→eq, Bool-cases, ℕ, zero, suc, ◌≡◌, refl, sym, ap, ◌∙◌, Bool, true, false, inl,
  inr, if◌then◌else◌, List, [], ◌∷◌, none, some, codes, arith,
}
use webson.Tests.{plain_flate, plain_nego, a_connection, hello, a_reader}
use webson.Config.{NodeConfig}
use webson.Connection.{Connection, name}
use webson.Connection.Streams.{in_use, send_options}
use webson.Pool.{Pool, PoolConfig, entry, add, remove, node_of}
use webson.Connection.Streams.Alloc.{Distinct}
use webson.Errors.{status_closed}
use webson.Reader.{remaining}
use webson.Pool.Members.{IsPool, side}
use webson.Pool.Members.Updating.{IsOutside}
use webson.Pool.Members.Adding.{Added, add-IsPool}
use webson.Pool.Members.Removing.{IsGone, remove-IsPool, rejected-evicts}
use webson.Pool.Broadcast.{to_servers, sent}
use webson.Pool.Broadcast.Servers.{AllServed, IsPlainServer, to_servers-AllServed}
use webson.Pool.Run.{Run}

abbrev pub node : List ℕ → NodeConfig
node n = record { name = n; group = [] }

abbrev pub alice : List ℕ
alice = codes "alice"

abbrev pub pool_config : PoolConfig
pool_config = record { name = codes "pool"; size = 2; client_retry = 1; retry_interval = 1 }

-- The connection 0 is a server connection with a name, and a member; the others have none.
abbrev pub store : ℕ → Connection
store zero = record (a_connection false plain_nego) { node = some (node alice) }
store (suc n) = a_connection false plain_nego

abbrev pub a_pool : Pool
a_pool = record {
  clients = [];
  servers = 0 ∷ [];
  config = pool_config;
  entry_map = (alice, 0) ∷ [];
  name = codes "pool";
  status_handler = none;
  message_handler = none;
  closed = false;
  started = 0 ∷ [];
  cons = store;
}

pub found_alice : entry alice a_pool.entry_map ≡ some 0
unfolding entry
found_alice = refl

only_zero : (b : Bool) (c : ℕ) → in_use c (side a_pool b) ≡ true → (c ≡ 0) × (b ≡ false)
unfolding in_use
only_zero true c h = absurd cc
only_zero false c h = (ground arith, refl)

only_alice : (n : List ℕ) (c : ℕ) → entry n a_pool.entry_map ≡ some c → (c ≡ 0) × (n ≡ alice)
unfolding entry
only_alice n c h = elim (Bool-cases (bytes_eq alice n)) [
  | inl q ↦ (
    some-injective c (ap (λ b. if b then some 0 else none) (sym q) ∙ h),
    sym (bytes_eq→eq alice n q),
  )
  | inr q ↦ absurd (none-some c (ap (λ b. if b then some 0 else none) (sym q) ∙ h))
]
  where
    some-injective : (c : ℕ) → some 0 ≡ some c → c ≡ 0
    some-injective c e = cc

    none-some : (c : ℕ) → none ≡ some c → ⊥
    none-some c e = cc

alice_named : name (store 0) ≡ alice
unfolding name
alice_named = refl

zero_there : in_use 0 (side a_pool false) ≡ true
unfolding in_use
zero_there = refl

servers-Distinct : (b : Bool) → Distinct (side a_pool b)
unfolding in_use
servers-Distinct true = tt
servers-Distinct false = (refl, tt)

pub a_pool-IsPool : IsPool a_pool
a_pool-IsPool = record {
  entry_ok = λ n c h. let (z, a) = only_alice n c h in rw z (alice_named ∙ sym a, refl, zero_there);
  side_ok = λ b c h.
      let (z, f) = only_zero b c h in
      rw (z, f) (ap (λ n. entry n a_pool.entry_map) alice_named ∙ found_alice, refl);
  distinct = servers-Distinct;
  within = inr (omega arith);
}

pub outside : IsOutside 1 a_pool
unfolding in_use
outside true = refl
outside false = refl

add-IsPool_example :
    IsPool (add [] 1 (some (node hello)) a_pool).1
    × Added [] 1 (node_of [] (some (node hello))) a_pool (add [] 1 (some (node hello)) a_pool)
add-IsPool_example = add-IsPool [] 1 (some (node hello)) a_pool outside a_pool-IsPool

remove-IsPool_example : (q : Pool) × (remove 0 a_pool ≡ some q) × IsGone alice 0 q
remove-IsPool_example = remove-IsPool alice 0 a_pool a_pool-IsPool found_alice

alice_taken : entry (node_of [] (some (node alice))).name a_pool.entry_map ≡ some 0
unfolding entry node_of
alice_taken = refl

rejected-evicts_example :
    (q : Pool) × (remove 1 (add [] 1 (some (node alice)) a_pool).1 ≡ some q)
    × (entry (node_of [] (some (node alice))).name q.entry_map ≡ none)
rejected-evicts_example = rejected-evicts [] 1 0 (some (node alice)) a_pool alice_taken

store-IsPlainServer : (i : ℕ) → IsPlainServer 1 hello (store i)
unfolding send_options
store-IsPlainServer zero = record {
  server = refl;
  no_stream = refl;
  no_compress = refl;
  chunks = omega arith;
  writable = record { ready = refl; raw_open = refl; raw_works = refl; masks = λ n. refl };
}
store-IsPlainServer (suc i) = record {
  server = refl;
  no_stream = refl;
  no_compress = refl;
  chunks = omega arith;
  writable = record { ready = refl; raw_open = refl; raw_works = refl; masks = λ n. refl };
}

abbrev two_servers : Pool
two_servers = record a_pool { servers = 0 ∷ 1 ∷ [] }

to_servers-AllServed_example :
    (cons' : ℕ → Connection) × (to_servers plain_flate 1 hello two_servers ≡ sent hello cons')
    × AllServed 1 hello (0 ∷ 1 ∷ []) store cons'
to_servers-AllServed_example =
    to_servers-AllServed plain_flate 1 hello two_servers (unfold in_use in (refl, (refl, tt)))
      (λ i h. store-IsPlainServer i)

-- A network that the other side closes at once.
abbrev runs : ℕ → Run
runs n = record { reader = a_reader []; clock = λ k. k; pool_closed = false }

abbrev down : Connection
down = record (a_connection true plain_nego) {
  status = status_closed;
  closed = true;
  raw_closed = true;
}
