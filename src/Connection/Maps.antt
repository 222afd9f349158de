-- ===== src/Connection/Maps.antt =====
-- Go maps as association lists: `lookup`, `insert` and `delete` on one key and on two.
use webson.Common.{
  ℕ, ◌≡◌, refl, ap, Bool-cases, inl, inr, false, ◌==◌, ==_refl, List, [], ◌∷◌, none, some, arith,
}
use webson.Connection.{lookup, insert, delete}

module _ {ℓ} {V : Type ℓ} where
  pub lookup-insert : (i : ℕ) (v : V) (m : List (ℕ × V)) → lookup i (insert i v m) ≡ some v
  unfolding lookup insert
  lookup-insert i v m = rw (==_refl i)

  delete_twice : (i : ℕ) (m : List (ℕ × V)) → delete i (delete i m) ≡ delete i m
  unfolding delete
  delete_twice i [] = refl
  delete_twice i ((j, v) ∷ m) = elim (Bool-cases (j == i)) [
    | inl e ↦ rw e (delete_twice i m)
    | inr e ↦ rw (e, delete, e) (ap (λ t. (j, v) ∷ t) (delete_twice i m))
  ]

  pub delete-insert : (i : ℕ) (v : V) (m : List (ℕ × V)) → delete i (insert i v m) ≡ delete i m
  unfolding delete insert
  delete-insert i v m = rw (==_refl i) (delete_twice i m)

  pub lookup-delete : (i : ℕ) (m : List (ℕ × V)) → lookup i (delete i m) ≡ none
  unfolding lookup delete
  lookup-delete i [] = refl
  lookup-delete i ((j, v) ∷ m) = let rest = lookup-delete i m in ground arith

  pub lookup-delete_other :
      (i j : ℕ) (m : List (ℕ × V)) → (j == i) ≡ false → lookup i (delete j m) ≡ lookup i m
  unfolding lookup delete
  lookup-delete_other i j [] h = refl
  lookup-delete_other i j ((k, v) ∷ m) h = let rest = lookup-delete_other i j m h in ground arith

  pub lookup-insert_other :
      (i j : ℕ) (v : V) (m : List (ℕ × V)) → (j == i) ≡ false → lookup i (insert j v m) ≡ lookup i m
  unfolding lookup insert
  lookup-insert_other i j v m h = let rest = lookup-delete_other i j m h in ground arith
