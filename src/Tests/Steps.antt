-- ===== src/Tests/Steps.antt =====
-- The life of a small pool.
use webson.Common.{
  ℕ, ◌+◌, ◌≤◌, ◌≡◌, ◌⊎◌, refl, Bool, true, false, List, [], none, some, codes, arith,
}
use webson.Connection.{name}
use webson.Connection.Streams.{in_use}
use webson.Connection.Events.{revoke}
use webson.Pool.{
  Pool, PoolConfig, entry, add, remove, new_pool, node_of, cast_out, update, delete_entry,
  cut_named, set_node, enter, is_full,
}
use webson.Pool.Members.{IsPool}
use webson.Pool.Members.Updating.{IsOutside}
use webson.Pool.Run.{wait_over}
use webson.Pool.Steps.{here, step, adds, closes, stays, leaves}
use webson.Pool.Steps.Invariant.{Reachable-IsPool}
use webson.Pool.Steps.Ending.{Leaves-wait_over}
use webson.Pool.Steps.Late.{cast_out-evicts}
use webson.Tests.{plain_flate}
use webson.Tests.Pools.{node, alice, pool_config, store, a_pool, found_alice, a_pool-IsPool}

abbrev fresh : Pool
fresh = new_pool [] (some pool_config) store

nobody : (c : ℕ) → IsOutside c fresh
unfolding new_pool in_use
nobody c true = refl
nobody c false = refl

-- A connection is added, and the pool is closed.
abbrev grown : Pool
grown = webson.Pool.Run.close_pool plain_flate (add [] 0 (some (node alice)) fresh).1

Reachable-IsPool_example : IsPool grown
Reachable-IsPool_example =
    Reachable-IsPool [] (some pool_config) store grown
      (step (step here (adds [] 0 (some (node alice)) (nobody 0))) (closes plain_flate))

abbrev closed_pool : Pool
closed_pool = record a_pool { closed = true }

closed-IsPool : IsPool closed_pool
closed-IsPool = record {
  entry_ok = a_pool-IsPool.entry_ok;
  side_ok = a_pool-IsPool.side_ok;
  distinct = a_pool-IsPool.distinct;
  within = a_pool-IsPool.within;
}

abbrev emptied : Bool → Pool
emptied closed = record a_pool {
  servers = [];
  entry_map = [];
  closed = closed;
  cons = update 0 (revoke (codes "pool") (store 0)) store;
}

emptied_eq : (b : Bool) → remove 0 (record a_pool { closed = b }) ≡ some (emptied b)
unfolding remove webson.Pool.remove_named delete_entry cut_named name
emptied_eq b = refl

Leaves-wait_over_example :
    (1 + 0 ≤ 1)
    × ((wait_over (emptied true) ≡ true)
        ⊎ ((n : List ℕ) × (c : ℕ) × (q : Pool) × (entry n [] ≡ some c)
            × (remove c (emptied true) ≡ some q)))
Leaves-wait_over_example =
    Leaves-wait_over closed_pool (emptied true) 1 closed-IsPool refl
      (leaves alice 0 found_alice (emptied_eq true) stays)

IsOutside-emptied : IsOutside 1 (emptied false)
unfolding in_use
IsOutside-emptied true = refl
IsOutside-emptied false = refl

-- Another connection takes the name of the one that was cast out.
abbrev taken_over : Pool
taken_over = (add [] 1 (some (node alice)) (emptied false)).1

casts : cast_out 0 a_pool ≡ some (emptied false)
unfolding cast_out
casts = emptied_eq false

takes : add [] 1 (some (node alice)) (emptied false) ≡ (none, taken_over)
unfolding add node_of set_node entry is_full enter
takes = refl

same_name : entry (node_of [] (some (node alice))).name a_pool.entry_map ≡ some 0
unfolding entry node_of
same_name = refl

cast_out-evicts_example :
    (entry (node_of [] (some (node alice))).name taken_over.entry_map ≡ some 1)
    × ((q : Pool) × (remove 0 taken_over ≡ some q)
        × (entry (node_of [] (some (node alice))).name q.entry_map ≡ none))
cast_out-evicts_example =
    cast_out-evicts [] 0 1 (some (node alice)) a_pool (emptied false) taken_over a_pool-IsPool
      same_name casts IsOutside-emptied (λ e. absurd (omega arith)) takes
