-- ===== src/Pool/Steps/Late.antt =====
-- pool.go: a connection that was cast out, whose goroutine comes to `remove` later.
use webson.Common.{ℕ, ◌≡◌, ◌≢◌, sym, ap, ◌∙◌, true, List, Option, none, some}
use mathlib.Core.Path.{subst}
use webson.Config.{NodeConfig}
use webson.Connection.{name}
use webson.Connection.Events.{apply}
use webson.Pool.{Pool, entry, node_of, set_node, enter, add, cast_out, remove, remove_named, update}
use webson.Pool.Members.{IsPool, has_node, entry-delete_entry_same}
use webson.Pool.Members.Updating.{IsOutside, update-other}
use webson.Pool.Members.Adding.{Added, add-IsPool, add-enters}
use webson.Pool.Members.Leaving.{remove_named-Alike}
use webson.Pool.Members.Removing.{remove-named}
use webson.Pool.Steps.Ending.{removed_entries}
use webson.Pool.Steps.Invariant.{remove-keeps}

-- A connection takes away the entry of its name, whoever has it.
remove-by_name :
    (n : List ℕ) (c : ℕ) (p : Pool)
    → has_node (p.cons c) ≡ true
    → name (p.cons c) ≡ n
    → (q : Pool) × (remove c p ≡ some q) × (entry n q.entry_map ≡ none)
remove-by_name n c p noded named = (
  remove_named c n p,
  remove-named c p noded ∙ ap (λ t. some (remove_named c t p)) named,
  unfold remove_named in entry-delete_entry_same n p.entry_map,
)

entered_cons :
    (c d : ℕ) (n : List ℕ) (g : NodeConfig) (p : Pool)
    → c ≢ d
    → (enter d n (set_node d g p)).cons c ≡ p.cons c
unfolding enter set_node
entered_cons c d n g p other =
    let noded = record (p.cons d) { node = some g } in
    let cons = update d noded p.cons in
    update-other d c (apply p.name (cons d)) cons other ∙ update-other d c noded p.cons other

-- A member that is cast out of a pool that keeps the invariant, and another connection that Add
-- then accepts under its name: that one has the entry, until the goroutine of the first one comes
-- to remove, which takes the entry away.
pub cast_out-evicts :
    (key : List ℕ) (c d : ℕ) (config : Option NodeConfig) (p q p' : Pool)
    → IsPool p
    → entry (node_of key config).name p.entry_map ≡ some c
    → cast_out c p ≡ some q
    → IsOutside d q
    → c ≢ d
    → add key d config q ≡ (none, p')
    → (entry (node_of key config).name p'.entry_map ≡ some d)
      × ((q' : Pool) × (remove c p' ≡ some q')
          × (entry (node_of key config).name q'.entry_map ≡ none))
unfolding cast_out
cast_out-evicts key c d config p q p' r there out outside other added =
    let g = node_of key config in
    let same = removed_entries g.name c p q r there out in
    let rq = remove-keeps g.name c p q r there out in
    let (inv, done) = add-IsPool key d config q outside rq in
    let (free, room, found, runs) : Added key d g q (none, p') =
      subst (λ x. Added key d g q x) added done in
    let entered = sym (ap (λ t. t.1) added) ∙ ap (λ t. t.1) (add-enters key d config q free room) in
    let kept : p'.cons c ≡ q.cons c =
      ap (λ t. t.cons c) entered ∙ entered_cons c d g.name g q other in
    let left : q.cons c ≡ (remove_named c g.name p).cons c = ap (λ t. t.cons c) same in
    let (named, noded, rest) = r.entry_ok g.name c there in
    let (x, y, z) = remove_named-Alike c g.name p c in
    (
      found,
      remove-by_name g.name c p' (ap has_node (kept ∙ left) ∙ y ∙ noded)
          (ap name (kept ∙ left) ∙ x ∙ named),
    )
