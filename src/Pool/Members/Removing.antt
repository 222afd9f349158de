-- ===== src/Pool/Members/Removing.antt =====
-- pool.go: `remove`, and who is in the pool behind it.
use webson.Common.{
  ℕ, ◌≡◌, refl, ap, ◌∙◌, Bool, true, false, not, ◌&&◌, ◌==◌, ==_refl, List, [], Option, none, some,
  arith,
}
use webson.Config.{NodeConfig}
use webson.Connection.{name}
use webson.Connection.Streams.{in_use}
use webson.Pool.{Pool, entry, remove, remove_node, remove_named, add, node_of, set_node}
use webson.Pool.Members.{IsPool, side, has_node, entry-delete_entry_same}
use webson.Pool.Members.Adding.{add-taken}
use webson.Pool.Members.Updating.{with_cons-IsPool, update-same}
use webson.Pool.Members.Leaving.{removed, remove_named-Alike, in_use-removed, removed-IsPool}

name_in : Option NodeConfig → List ℕ
name_in o = elim o [ none ↦ [] | some n ↦ n.name ]

remove_node-name_in :
    (c : ℕ) (p : Pool) (o : Option NodeConfig)
    → elim o [ none ↦ false | some n ↦ true ] ≡ true
    → remove_node c p o ≡ some (remove_named c (name_in o) p)
unfolding name_in
remove_node-name_in c p none h = absurd cc
remove_node-name_in c p (some n) h = refl

pub remove-named :
    (c : ℕ) (p : Pool)
    → has_node (p.cons c) ≡ true
    → remove c p ≡ some (remove_named c (name (p.cons c)) p)
unfolding remove name name_in
remove-named c p h = remove_node-name_in c p (p.cons c).node h

-- What is left of a member: nothing.
abbrev pub IsGone : List ℕ → ℕ → Pool → Type 0
IsGone n c q = IsPool q × (entry n q.entry_map ≡ none) × ((b : Bool) → in_use c (side q b) ≡ false)

remove_named-IsGone :
    (n : List ℕ) (c : ℕ) (p : Pool)
    → IsPool p
    → entry n p.entry_map ≡ some c
    → IsGone n c (remove_named c n p)
remove_named-IsGone n c p r e = (
  with_cons-IsPool (removed c n p) (remove_named c n p).cons (removed-IsPool p n c r e)
      (λ b i t. remove_named-Alike c n p i),
  unfold remove_named in entry-delete_entry_same n p.entry_map,
  λ b.
      absent (in_use c (side p b)) (in_use c (side (remove_named c n p) b))
        (in_use-removed p n c b c r e),
)
  where
    absent : (x y : Bool) → y ≡ (x && not (c == c)) → y ≡ false
    absent x y h = let same = ==_refl c in ground arith

-- Remove of a member of the pool does not panic and keeps the invariant of the pool, and then its
-- name has no entry and it is in neither slice.
pub remove-IsPool :
    (n : List ℕ) (c : ℕ) (p : Pool)
    → IsPool p
    → entry n p.entry_map ≡ some c
    → (q : Pool) × (remove c p ≡ some q) × IsGone n c q
remove-IsPool n c p r e =
    let (named, noded, there) = r.entry_ok n c e in
    (
      remove_named c n p,
      remove-named c p noded ∙ ap (λ t. some (remove_named c t p)) named,
      remove_named-IsGone n c p r e,
    )

-- A connection that Add rejects because its name is taken has that name all the same: removing it
-- takes away the entry of the other connection.
pub rejected-evicts :
    (key : List ℕ) (c d : ℕ) (config : Option NodeConfig) (p : Pool)
    → entry (node_of key config).name p.entry_map ≡ some d
    → (q : Pool) × (remove c (add key c config p).1 ≡ some q)
      × (entry (node_of key config).name q.entry_map ≡ none)
rejected-evicts key c d config p e =
    let n = node_of key config in
    let p' = set_node c n p in
    let same = update-same c (record (p.cons c) { node = some n }) p.cons in
    (
      remove_named c n.name p',
      ap (λ t. remove c t.1) (add-taken key c d config p e)
          ∙ (unfold remove set_node in ap (λ t. remove_node c p' t.node) same),
      unfold remove_named in entry-delete_entry_same n.name p'.entry_map,
    )
