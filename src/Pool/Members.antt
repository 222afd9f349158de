-- ===== src/Pool/Members.antt =====
-- Who is in a pool: the invariant of `Add` and `remove`, and the lemmas on names, entries and slices.
pub mod Updating
pub mod Entering
pub mod Adding
pub mod Leaving
pub mod Removing
use webson.Common.{
  ℕ, zero, suc, ◌+◌, ◌≤◌, ◌≡◌, refl, ap, ap₂, sym, ◌∙◌, ◌≢◌, ◌⊎◌, inl, inr, Bool, true, false,
  Bool-cases, not, bytes_eq_refl, bytes_eq→eq, ◌&&◌, ◌||◌, if◌then◌else◌, ◌==◌, ==_iff, ==_refl,
  bytes_eq, List, [], ◌∷◌, ◌++◌, Option, none, some, length, arith,
}
use webson.Connection.{Connection, name}
use webson.Connection.Streams.{in_use, release_id}
use webson.Connection.Streams.Alloc.{Distinct, release_id-absent}
use webson.Pool.{Pool, entry, delete_entry, cut_named, update}

abbrev pub has_node : Connection → Bool
has_node con = elim con.node [ none ↦ false | some n ↦ true ]

-- The slice that a connection belongs to.
abbrev pub side : Pool → Bool → List ℕ
side p is_client = if is_client then p.clients else p.servers

-- The names, the slices and the sizes fit together.
pub record IsPool (p : Pool) : Type 0 where
  pub entry_ok :
      (n : List ℕ) (c : ℕ)
      → entry n p.entry_map ≡ some c
      → (name (p.cons c) ≡ n)
        × (has_node (p.cons c) ≡ true)
        × (in_use c (side p (p.cons c).is_client) ≡ true)
  pub side_ok :
      (b : Bool) (c : ℕ)
      → in_use c (side p b) ≡ true
      → (entry (name (p.cons c)) p.entry_map ≡ some c) × ((p.cons c).is_client ≡ b)
  pub distinct : (b : Bool) → Distinct (side p b)
  pub within : (p.config.size ≡ 0) ⊎ (length p.entry_map ≤ p.config.size)

pub entry-delete_entry_same :
    (n : List ℕ) (es : List (List ℕ × ℕ)) → entry n (delete_entry n es) ≡ none
unfolding entry delete_entry
entry-delete_entry_same n [] = refl
entry-delete_entry_same n ((k, c) ∷ es) = let rest = entry-delete_entry_same n es in ground arith

pub entry-delete_entry_other :
    (n m : List ℕ) (es : List (List ℕ × ℕ))
    → bytes_eq n m ≡ false
    → entry m (delete_entry n es) ≡ entry m es
unfolding entry delete_entry
entry-delete_entry_other n m [] h = refl
entry-delete_entry_other n m ((k, c) ∷ es) h = elim (Bool-cases (bytes_eq k n)) [
  | inl e ↦
      let other : bytes_eq k m ≡ false = ap (λ x. bytes_eq x m) (bytes_eq→eq k n e) ∙ h in
      rw (e, other) (entry-delete_entry_other n m es h)
  | inr e ↦ let rest = entry-delete_entry_other n m es h in ground arith
]

pub length-delete_entry :
    (n : List ℕ) (es : List (List ℕ × ℕ)) → length (delete_entry n es) ≤ length es
unfolding delete_entry
length-delete_entry n [] = omega arith
length-delete_entry n ((k, c) ∷ es) = let rest = length-delete_entry n es in ground arith

pub in_use-append : (i c : ℕ) (cs : List ℕ) → in_use i (cs ++ (c ∷ [])) ≡ (in_use i cs || (c == i))
unfolding in_use
in_use-append i c [] = ground arith
in_use-append i c (d ∷ cs) = let rest = in_use-append i c cs in ground arith

pub append-Distinct :
    (c : ℕ) (cs : List ℕ) → in_use c cs ≡ false → Distinct cs → Distinct (cs ++ (c ∷ []))
unfolding in_use
append-Distinct c [] h d = (refl, tt)
append-Distinct c (i ∷ cs) h (f, d) =
    let e = in_use-append i c cs in (ground arith, append-Distinct c cs (ground arith) d)

pub in_use-release_id :
    (i c : ℕ) (cs : List ℕ) → in_use i (release_id c cs) ≡ (in_use i cs && not (c == i))
unfolding in_use release_id
in_use-release_id i c [] = refl
in_use-release_id i c (d ∷ cs) = let rest = in_use-release_id i c cs in ground arith

pub release_id-Distinct : (c : ℕ) (cs : List ℕ) → Distinct cs → Distinct (release_id c cs)
unfolding release_id
release_id-Distinct c [] d = tt
release_id-Distinct c (i ∷ cs) (f, d) = elim (Bool-cases (i == c)) [
  | inl e ↦ rw e (release_id-Distinct c cs d)
  | inr e ↦ let e' = in_use-release_id i c cs in rw e (ground arith, release_id-Distinct c cs d)
]

-- A name that no other connection of the slice has cuts out the one that has it.
pub cut_named-release_id :
    (cons : ℕ → Connection) (n : List ℕ) (c : ℕ) (cs : List ℕ)
    → ((i : ℕ) → in_use i cs ≡ true → bytes_eq (name (cons i)) n ≡ (i == c))
    → Distinct cs
    → cut_named cons n cs ≡ release_id c cs
unfolding cut_named release_id in_use
cut_named-release_id cons n c [] h d = refl
cut_named-release_id cons n c (i ∷ cs) h (f, d) = elim (Bool-cases (i == c)) [
  | inl e ↦
      let same : i ≡ c = (==_iff i c).0 e in
      let first = h i (ground arith) in
      let absent = release_id-absent c cs (rw same at f) in ground arith
  | inr e ↦
      let first = h i (ground arith) in
      let rest = cut_named-release_id cons n c cs (λ j q. h j (ground arith)) d in ground arith
]
