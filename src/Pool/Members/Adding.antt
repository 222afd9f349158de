-- ===== src/Pool/Members/Adding.antt =====
-- pool.go: `Add`, and who is in the pool behind it.
use webson.Common.{
  bytes_eq_refl, ℕ, ◌≡◌, refl, ap, ◌≢◌, ◌⊎◌, inl, inr, true, false, Bool-cases, ==_refl, List,
  Option, none, some, arith, Option-cases,
}
use webson.Config.{NodeConfig}
use webson.Errors.{Error, new_error}
use webson.Connection.{name}
use webson.Connection.Streams.{in_use}
use webson.Pool.{Pool, entry, set_node, node_of, is_full, enter, add}
use webson.Pool.Members.{IsPool, has_node}
use webson.Pool.Members.Updating.{IsOutside, update-same, set_node-IsPool}
use webson.Pool.Members.Entering.{enter-IsPool}

node_entered-IsPool :
    (c : ℕ) (n : NodeConfig) (p : Pool)
    → IsOutside c p
    → IsPool p
    → entry n.name p.entry_map ≡ none
    → is_full p ≡ false
    → IsPool (enter c n.name (set_node c n p))
unfolding set_node is_full name
node_entered-IsPool c n p out r free room =
    enter-IsPool c n.name (set_node c n p) out (set_node-IsPool c n p out r) named noded free room
  where
    same : (set_node c n p).cons c ≡ record (p.cons c) { node = some n }
    same = update-same c (record (p.cons c) { node = some n }) p.cons

    named : name ((set_node c n p).cons c) ≡ n.name
    named = ap name same

    noded : has_node ((set_node c n p).cons c) ≡ true
    noded = ap has_node same

pub add-taken :
    (key : List ℕ) (c d : ℕ) (config : Option NodeConfig) (p : Pool)
    → entry (node_of key config).name p.entry_map ≡ some d
    → add key c config p
      ≡ (some (new_error "connection name conflict"), set_node c (node_of key config) p)
unfolding add set_node
add-taken key c d config p e = ground arith

add-full :
    (key : List ℕ) (c : ℕ) (config : Option NodeConfig) (p : Pool)
    → entry (node_of key config).name p.entry_map ≡ none
    → is_full p ≡ true
    → add key c config p
      ≡ (some (new_error "pool size exceeded"), set_node c (node_of key config) p)
unfolding add set_node is_full
add-full key c config p e full = ground arith

pub add-enters :
    (key : List ℕ) (c : ℕ) (config : Option NodeConfig) (p : Pool)
    → entry (node_of key config).name p.entry_map ≡ none
    → is_full p ≡ false
    → add key c config p
      ≡ (none, enter c (node_of key config).name (set_node c (node_of key config) p))
unfolding add set_node is_full
add-enters key c config p e room = ground arith

-- The outcomes of `Add`.
abbrev pub Added : List ℕ → ℕ → NodeConfig → Pool → Option Error × Pool → Type 0
Added key c n p (none, q) =
    (entry n.name p.entry_map ≡ none)
    × (is_full p ≡ false)
    × (entry n.name q.entry_map ≡ some c)
    × (in_use c q.started ≡ true)
Added key c n p (some e, q) =
    (q.entry_map ≡ p.entry_map)
    × (q.clients ≡ p.clients)
    × (q.servers ≡ p.servers)
    × (q.started ≡ p.started)
    × ((entry n.name p.entry_map ≢ none) ⊎ (is_full p ≡ true))

refused-Added :
    (key : List ℕ) (c : ℕ) (n : NodeConfig) (p : Pool) (e : Error)
    → (entry n.name p.entry_map ≢ none) ⊎ (is_full p ≡ true)
    → Added key c n p (some e, set_node c n p)
unfolding set_node
refused-Added key c n p e h = (refl, refl, refl, refl, h)

enters-Added :
    (c : ℕ) (n : NodeConfig) (p : Pool)
    → (entry n.name (enter c n.name (set_node c n p)).entry_map ≡ some c)
      × (in_use c (enter c n.name (set_node c n p)).started ≡ true)
unfolding enter set_node entry in_use
enters-Added c n p = rw (bytes_eq_refl n.name, ==_refl c) (refl, refl)

-- Add of a connection that is not in the pool keeps the invariant of the pool; it refuses exactly
-- for a name that is taken and for a pool that is full, and then the members stay the same;
-- otherwise the connection is found under its name and has its goroutine.
pub add-IsPool :
    (key : List ℕ) (c : ℕ) (config : Option NodeConfig) (p : Pool)
    → IsOutside c p
    → IsPool p
    → IsPool (add key c config p).1 × Added key c (node_of key config) p (add key c config p)
add-IsPool key c config p out r =
    let n = node_of key config in
    let q = set_node c n p in
    let r' = set_node-IsPool c n p out r in
    elim (Option-cases (entry n.name p.entry_map)) [
      | inr (d, e) ↦
          rw (add-taken key c d config p e)
            (r', refused-Added key c n p (new_error "connection name conflict") (inl (λ no. cc)))
      | inl e ↦ elim (Bool-cases (is_full p)) [
        | inl full ↦
            rw (add-full key c config p e full)
              (r', refused-Added key c n p (new_error "pool size exceeded") (inr full))
        | inr room ↦
            let (found, runs) = enters-Added c n p in
            rw (add-enters key c config p e room)
              (node_entered-IsPool c n p out r e room, (e, room, found, runs))
      ]
    ]
