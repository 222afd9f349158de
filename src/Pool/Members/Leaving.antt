-- ===== src/Pool/Members/Leaving.antt =====
-- pool.go: the changes that `remove` makes.
use webson.Common.{
  bytes_eq→eq, bytes_eq_refl, ℕ, ◌≡◌, refl, ap, sym, ◌∙◌, ◌≢◌, inl, inr, Bool, true, false,
  Bool-cases, not, ◌&&◌, ◌==◌, ==_iff, bytes_eq, List, none, some, arith,
}
use webson.Connection.{name}
use webson.Connection.Events.{revoke}
use webson.Connection.Streams.{in_use}
use webson.Connection.Streams.Alloc.{Distinct}
use webson.Pool.{Pool, entry, delete_entry, update, remove_named}
use webson.Pool.Members.{
  IsPool, side, entry-delete_entry_same, entry-delete_entry_other, length-delete_entry,
  in_use-release_id, release_id-Distinct, cut_named-release_id,
}
use webson.Pool.Members.Updating.{Alike}

-- The pool without the connection, but for the handler of the connection.
abbrev pub removed : ℕ → List ℕ → Pool → Pool
removed c n p = record (remove_named c n p) { cons = p.cons }

pub remove_named-Alike :
    (c : ℕ) (n : List ℕ) (p : Pool) (i : ℕ) → Alike ((remove_named c n p).cons i) (p.cons i)
unfolding remove_named update revoke name
remove_named-Alike c n p i = elim (Bool-cases (i == c)) [
  | inl e ↦ rw (e, (==_iff i c).0 e) (refl, refl, refl)
  | inr e ↦ rw e (refl, refl, refl)
]

-- In a slice of the pool a name tells the connection.
pub name-tells :
    (p : Pool) (n : List ℕ) (c : ℕ) (b : Bool) (i : ℕ)
    → IsPool p
    → entry n p.entry_map ≡ some c
    → in_use i (side p b) ≡ true
    → bytes_eq (name (p.cons i)) n ≡ (i == c)
name-tells p n c b i r e there =
    let (found, role) = r.side_ok b i there in
    let (named, noded, own) = r.entry_ok n c e in
    elim (Bool-cases (i == c)) [
      | inl q ↦ rw (q, (==_iff i c).0 q, named) (bytes_eq_refl n)
      | inr q ↦ elim (Bool-cases (bytes_eq (name (p.cons i)) n)) [
        | inl t ↦
            let same = bytes_eq→eq (name (p.cons i)) n t in
            let found' : entry n p.entry_map ≡ some i = rw (← same) found in
            absurd (let k : c ≡ i = cc in ground arith)
        | inr t ↦ rw (q, t)
      ]
    ]

pub in_use-absent :
    (p : Pool) (n : List ℕ) (c : ℕ) (b : Bool) (i : ℕ)
    → IsPool p
    → (p.cons c).is_client ≢ b
    → in_use i (side p b) ≡ (in_use i (side p b) && not (c == i))
in_use-absent p n c b i r k = elim (Bool-cases (c == i)) [
  | inl q ↦ elim (Bool-cases (in_use i (side p b))) [
    | inl t ↦ let same : c ≡ i = (==_iff c i).0 q in absurd (k (rw same ((r.side_ok b i t).1)))
    | inr t ↦ rw t
  ]
  | inr q ↦ ground arith
]

-- The slices without the connection.
pub in_use-removed :
    (p : Pool) (n : List ℕ) (c : ℕ) (b : Bool) (i : ℕ)
    → IsPool p
    → entry n p.entry_map ≡ some c
    → in_use i (side (removed c n p) b) ≡ (in_use i (side p b) && not (c == i))
unfolding remove_named
in_use-removed p n c true i r e = elim (Bool-cases (p.cons c).is_client) [
  | inl k ↦
      rw
        (
          k,
          cut_named-release_id p.cons n c p.clients (λ j. name-tells p n c true j r e)
              (r.distinct true),
        )
        (in_use-release_id i c p.clients)
  | inr k ↦ rw k (in_use-absent p n c true i r (λ q. cc))
]
in_use-removed p n c false i r e = elim (Bool-cases (p.cons c).is_client) [
  | inl k ↦ rw k (in_use-absent p n c false i r (λ q. cc))
  | inr k ↦
      rw
        (
          k,
          cut_named-release_id p.cons n c p.servers (λ j. name-tells p n c false j r e)
              (r.distinct false),
        )
        (in_use-release_id i c p.servers)
]

pub Distinct-removed :
    (p : Pool) (n : List ℕ) (c : ℕ) (b : Bool)
    → IsPool p
    → entry n p.entry_map ≡ some c
    → Distinct (side (removed c n p) b)
unfolding remove_named
Distinct-removed p n c true r e = elim (Bool-cases (p.cons c).is_client) [
  | inl k ↦
      rw
        (
          k,
          cut_named-release_id p.cons n c p.clients (λ j. name-tells p n c true j r e)
              (r.distinct true),
        )
        (release_id-Distinct c p.clients (r.distinct true))
  | inr k ↦ rw k (r.distinct true)
]
Distinct-removed p n c false r e = elim (Bool-cases (p.cons c).is_client) [
  | inl k ↦ rw k (r.distinct false)
  | inr k ↦
      rw
        (
          k,
          cut_named-release_id p.cons n c p.servers (λ j. name-tells p n c false j r e)
              (r.distinct false),
        )
        (release_id-Distinct c p.servers (r.distinct false))
]

pub entry-removed :
    (p : Pool) (n m : List ℕ) (c i : ℕ)
    → entry m (removed c n p).entry_map ≡ some i
    → (bytes_eq n m ≡ false) × (entry m p.entry_map ≡ some i)
unfolding remove_named
entry-removed p n m c i e = elim (Bool-cases (bytes_eq n m)) [
  | inl q ↦
      let gone = entry-delete_entry_same n p.entry_map in
      let gone' : entry m (delete_entry n p.entry_map) ≡ none =
        ap (λ t. entry t (delete_entry n p.entry_map)) (sym (bytes_eq→eq n m q)) ∙ gone in
      absurd cc
  | inr q ↦ let other = entry-delete_entry_other n m p.entry_map q in (q, ground arith)
]

pub kept-entry :
    (p : Pool) (n m : List ℕ) (c i : ℕ)
    → bytes_eq m n ≡ false
    → entry m p.entry_map ≡ some i
    → entry m (removed c n p).entry_map ≡ some i
unfolding remove_named
kept-entry p n m c i h e = elim (Bool-cases (bytes_eq n m)) [
  | inl q ↦
      let same = bytes_eq→eq n m q in
      let twice : bytes_eq m n ≡ true = ap (bytes_eq m) same ∙ bytes_eq_refl m in absurd cc
  | inr q ↦ let other = entry-delete_entry_other n m p.entry_map q in ground arith
]

pub other-ref :
    (p : Pool) (n m : List ℕ) (c i : ℕ)
    → IsPool p
    → entry n p.entry_map ≡ some c
    → entry m p.entry_map ≡ some i
    → bytes_eq n m ≡ false
    → (c == i) ≡ false
other-ref p n m c i r e e' h = elim (Bool-cases (c == i)) [
  | inl q ↦
      let one = (r.entry_ok n c e).0 in
      let two = (r.entry_ok m i e').0 in
      let same = sym one ∙ ap (λ t. name (p.cons t)) ((==_iff c i).0 q) ∙ two in
      let twice : bytes_eq n m ≡ true = ap (bytes_eq n) (sym same) ∙ bytes_eq_refl n in absurd cc
  | inr q ↦ q
]

pub and_not-true : (x a b : Bool) → x ≡ (a && not b) → x ≡ true → (a ≡ true) × (b ≡ false)
and_not-true x a b h k = ground arith

pub true-and_not : (x a b : Bool) → x ≡ (a && not b) → a ≡ true → b ≡ false → x ≡ true
true-and_not x a b h k l = ground arith

pub ref-eq-sym : (c i : ℕ) → (c == i) ≡ false → (i == c) ≡ false
ref-eq-sym c i h = ground arith

pub removed-IsPool :
    (p : Pool) (n : List ℕ) (c : ℕ)
    → IsPool p
    → entry n p.entry_map ≡ some c
    → IsPool (removed c n p)
unfolding remove_named
removed-IsPool p n c r e = record {
  entry_ok = λ m i q.
      let (other, found) = entry-removed p n m c i q in
      let (named, noded, there) = r.entry_ok m i found in
      (
        named,
        noded,
        true-and_not _ _ _ (in_use-removed p n c (p.cons i).is_client i r e) there
            (other-ref p n m c i r e found other),
      );
  side_ok = λ b i q.
      let there = in_use-removed p n c b i r e in
      let (t, far) = and_not-true _ _ _ there q in
      let (found, role) = r.side_ok b i t in
      let tells = name-tells p n c b i r e t in
      (kept-entry p n (name (p.cons i)) c i (tells ∙ ref-eq-sym c i far) found, role);
  distinct = λ b. Distinct-removed p n c b r e;
  within = elim r.within [
    | inl h ↦ inl h
    | inr h ↦ inr (omega (arith, h, length-delete_entry n p.entry_map))
  ];
}
