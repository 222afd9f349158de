-- ===== src/Pool/Steps/Ending.antt =====
-- pool.go: the end of `Wait`, as the members leave.
use webson.Common.{
  ℕ, zero, suc, ◌+◌, ◌≤◌, ◌<◌, ◌≡◌, ◌⊎◌, inl, inr, refl, sym, ap, ◌∙◌, true, Bool-cases, bytes_eq,
  bytes_eq_refl, List, [], ◌∷◌, some, length, arith,
}
use webson.Pool.{Pool, entry, delete_entry, remove, remove_named}
use webson.Pool.Members.{IsPool}
use webson.Pool.Members.Removing.{remove-IsPool, remove-named}
use webson.Pool.Run.{wait_over}
use webson.Pool.Steps.{Leaves, stays, leaves}
use webson.Pool.Steps.Invariant.{remove-keeps, some-eq}

delete_entry-le : (n : List ℕ) (es : List (List ℕ × ℕ)) → length (delete_entry n es) ≤ length es
unfolding delete_entry
delete_entry-le n [] = omega arith
delete_entry-le n ((k, c) ∷ es) = let rest = delete_entry-le n es in ground arith

-- A name that has an entry: without it there are fewer.
delete_entry-lt :
    (n : List ℕ) (es : List (List ℕ × ℕ)) (c : ℕ)
    → entry n es ≡ some c
    → length (delete_entry n es) < length es
unfolding delete_entry entry
delete_entry-lt n [] c e = absurd cc
delete_entry-lt n ((k, d) ∷ es) c e = elim (Bool-cases (bytes_eq k n)) [
  | inl q ↦ let rest = delete_entry-le n es in rw q (omega arith)
  | inr q ↦ let rest = delete_entry-lt n es c (rw q at e) in rw q (omega arith)
]

pub removed_entries :
    (n : List ℕ) (c : ℕ) (p q : Pool)
    → IsPool p
    → entry n p.entry_map ≡ some c
    → remove c p ≡ some q
    → q ≡ remove_named c n p
removed_entries n c p q r e h =
    let (named, noded, there) = r.entry_ok n c e in
    some-eq q (remove_named c n p)
      (sym h ∙ remove-named c p noded ∙ ap (λ t. some (remove_named c t p)) named)

remove_named-closed : (c : ℕ) (n : List ℕ) (p : Pool) → (remove_named c n p).closed ≡ p.closed
unfolding remove_named
remove_named-closed c n p = refl

remove_named-shorter :
    (c : ℕ) (n : List ℕ) (p : Pool)
    → entry n p.entry_map ≡ some c
    → length (remove_named c n p).entry_map < length p.entry_map
unfolding remove_named
remove_named-shorter c n p e = delete_entry-lt n p.entry_map c e

-- Nobody is left, or there is a member that can leave.
over_or_member :
    (p : Pool) (es : List (List ℕ × ℕ))
    → p.entry_map ≡ es
    → p.closed ≡ true
    → IsPool p
    → (wait_over p ≡ true)
      ⊎ ((n : List ℕ) × (c : ℕ) × (q : Pool) × (entry n p.entry_map ≡ some c)
          × (remove c p ≡ some q))
unfolding wait_over entry
over_or_member p [] e closed r = inl (rw (e, closed, wait_over) refl)
over_or_member p ((n, c) ∷ es) e closed r =
    let there : entry n p.entry_map ≡ some c = ap (entry n) e ∙ first n c es in
    let (q, h, gone) = remove-IsPool n c p r there in inr (n, c, q, there, h)
  where
    first : (n : List ℕ) (c : ℕ) (es : List (List ℕ × ℕ)) → entry n ((n, c) ∷ es) ≡ some c
    first n c es = rw (bytes_eq_refl n) refl

-- Members that leave a closed pool that keeps the invariant, one after the other in any order: they
-- are no more than the pool had, and behind them the condition of Wait holds or there is a member
-- that can leave.
pub Leaves-wait_over :
    (p q : Pool) (k : ℕ)
    → IsPool p
    → p.closed ≡ true
    → Leaves p q k
    → (k + length q.entry_map ≤ length p.entry_map)
      × ((wait_over q ≡ true)
          ⊎ ((n : List ℕ) × (c : ℕ) × (q' : Pool) × (entry n q.entry_map ≡ some c)
              × (remove c q ≡ some q')))
Leaves-wait_over p _ zero r closed stays = (omega arith, over_or_member p p.entry_map refl closed r)
Leaves-wait_over p q (suc k) r closed (leaves {q = p'} n c e h rest) =
    let same = removed_entries n c p p' r e h in
    let fewer : length p'.entry_map < length p.entry_map = rw same (remove_named-shorter c n p e) in
    let closed' : p'.closed ≡ true = ap (λ x. x.closed) same ∙ remove_named-closed c n p ∙ closed in
    let (bound, over) = Leaves-wait_over p' q k (remove-keeps n c p p' r e h) closed' rest in
    (omega arith, over)
