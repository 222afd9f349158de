-- ===== src/Pool/Members/Entering.antt =====
-- pool.go: the second half of `Add`, which makes a connection a member.
use webson.Common.{
  bytes_eq→eq, bytes_eq_refl, ℕ, ◌≤◌, ◌≡◌, refl, sym, ◌∙◌, ◌⊎◌, inl, inr, Bool, true, false,
  Bool-cases, ◌==◌, ==_iff, ==_refl, bytes_eq, List, none, some, length, arith,
}
use webson.Connection.{name}
use webson.Connection.Events.{apply}
use webson.Connection.Streams.{in_use}
use webson.Connection.Streams.Alloc.{Distinct}
use webson.Pool.{Pool, entry, update, is_full, enter}
use webson.Pool.Members.{
  IsPool, side, has_node, entry-delete_entry_other, length-delete_entry, in_use-append,
  append-Distinct,
}
use webson.Pool.Members.Updating.{Alike, with_cons-IsPool, IsOutside}

abbrev pub entered : ℕ → List ℕ → Pool → Pool
entered c n p = record (enter c n p) { cons = p.cons }

pub in_use-entered :
    (c i : ℕ) (n : List ℕ) (p : Pool) (b : Bool)
    → in_use i (side p b) ≡ true
    → in_use i (side (entered c n p) b) ≡ true
unfolding enter
in_use-entered c i n p true h = let e = in_use-append i c p.clients in ground arith
in_use-entered c i n p false h = let e = in_use-append i c p.servers in ground arith

pub own-entered :
    (c : ℕ) (n : List ℕ) (p : Pool) → in_use c (side (entered c n p) (p.cons c).is_client) ≡ true
unfolding enter
own-entered c n p =
    let e = in_use-append c c p.clients in
    let e' = in_use-append c c p.servers in let same = ==_refl c in ground arith

pub only-entered :
    (c i : ℕ) (n : List ℕ) (p : Pool) (b : Bool)
    → in_use i (side (entered c n p) b) ≡ true
    → (in_use i (side p b) ≡ true) ⊎ ((i ≡ c) × ((p.cons c).is_client ≡ b))
unfolding enter
only-entered c i n p true h =
    let e = in_use-append i c p.clients in
    elim (Bool-cases (in_use i p.clients)) [
      | inl q ↦ inl q
      | inr q ↦ elim (Bool-cases (p.cons c).is_client) [
        | inl k ↦ inr (sym ((==_iff c i).0 (ground arith)), k)
        | inr k ↦ absurd (ground arith)
      ]
    ]
only-entered c i n p false h =
    let e = in_use-append i c p.servers in
    elim (Bool-cases (in_use i p.servers)) [
      | inl q ↦ inl q
      | inr q ↦ elim (Bool-cases (p.cons c).is_client) [
        | inl k ↦ absurd (ground arith)
        | inr k ↦ inr (sym ((==_iff c i).0 (ground arith)), k)
      ]
    ]

pub Distinct-entered :
    (c : ℕ) (n : List ℕ) (p : Pool) (b : Bool)
    → IsOutside c p
    → IsPool p
    → Distinct (side (entered c n p) b)
unfolding enter
Distinct-entered c n p true out r = elim (Bool-cases (p.cons c).is_client) [
  | inl e ↦ rw e (append-Distinct c p.clients (out true) (r.distinct true))
  | inr e ↦ rw e (r.distinct true)
]
Distinct-entered c n p false out r = elim (Bool-cases (p.cons c).is_client) [
  | inl e ↦ rw e (r.distinct false)
  | inr e ↦ rw e (append-Distinct c p.servers (out false) (r.distinct false))
]

-- The entries of the pool are the old ones and the new one.
pub entry-entered :
    (c i : ℕ) (n m : List ℕ) (p : Pool)
    → entry m (entered c n p).entry_map ≡ some i
    → ((n ≡ m) × (i ≡ c)) ⊎ (entry m p.entry_map ≡ some i)
unfolding enter entry
entry-entered c i n m p e = elim (Bool-cases (bytes_eq n m)) [
  | inl q ↦ inl (bytes_eq→eq n m q, ground arith)
  | inr q ↦ let other = entry-delete_entry_other n m p.entry_map q in inr (ground arith)
]

pub old_entry :
    (c : ℕ) (n : List ℕ) (p : Pool) (m : List ℕ) (i : ℕ)
    → entry n p.entry_map ≡ none
    → entry m p.entry_map ≡ some i
    → entry m (entered c n p).entry_map ≡ some i
unfolding enter entry
old_entry c n p m i free x = elim (Bool-cases (bytes_eq n m)) [
  | inl q ↦ let same : entry n p.entry_map ≡ some i = rw (bytes_eq→eq n m q) x in absurd cc
  | inr q ↦ let other = entry-delete_entry_other n m p.entry_map q in ground arith
]

pub own_entry : (c : ℕ) (n : List ℕ) (p : Pool) → entry n (entered c n p).entry_map ≡ some c
unfolding enter entry
own_entry c n p = rw (bytes_eq_refl n)

pub room_left :
    (c : ℕ) (n : List ℕ) (p : Pool)
    → is_full p ≡ false
    → (p.config.size ≡ 0) ⊎ (length p.entry_map ≤ p.config.size)
    → (p.config.size ≡ 0) ⊎ (length (entered c n p).entry_map ≤ p.config.size)
unfolding enter is_full
room_left c n p room w = elim (Bool-cases (p.config.size == 0)) [
  | inl q ↦ inl ((==_iff p.config.size 0).0 q)
  | inr q ↦ let fewer = length-delete_entry n p.entry_map in inr (ground arith)
]

pub entered-IsPool :
    (c : ℕ) (n : List ℕ) (p : Pool)
    → IsOutside c p
    → IsPool p
    → name (p.cons c) ≡ n
    → has_node (p.cons c) ≡ true
    → entry n p.entry_map ≡ none
    → is_full p ≡ false
    → IsPool (entered c n p)
unfolding enter
entered-IsPool c n p out r named noded free room = record {
  entry_ok = λ m i e. elim (entry-entered c i n m p e) [
    | inl (q, q') ↦ rw q' (named ∙ q, noded, own-entered c n p)
    | inr q ↦
        let (x, y, z) = r.entry_ok m i q in (x, y, in_use-entered c i n p (p.cons i).is_client z)
  ];
  side_ok = λ b i e. elim (only-entered c i n p b e) [
    | inl q ↦ let (x, y) = r.side_ok b i q in (old_entry c n p (name (p.cons i)) i free x, y)
    | inr (q, q') ↦ rw q (rw named (own_entry c n p), q')
  ];
  distinct = λ b. Distinct-entered c n p b out r;
  within = room_left c n p room r.within;
}

pub enter-Alike : (c : ℕ) (n : List ℕ) (p : Pool) (i : ℕ) → Alike ((enter c n p).cons i) (p.cons i)
unfolding enter update apply name
enter-Alike c n p i = elim (Bool-cases (i == c)) [
  | inl e ↦ rw (e, (==_iff i c).0 e) (refl, refl, refl)
  | inr e ↦ rw e (refl, refl, refl)
]

pub enter-IsPool :
    (c : ℕ) (n : List ℕ) (p : Pool)
    → IsOutside c p
    → IsPool p
    → name (p.cons c) ≡ n
    → has_node (p.cons c) ≡ true
    → entry n p.entry_map ≡ none
    → is_full p ≡ false
    → IsPool (enter c n p)
enter-IsPool c n p out r named noded free room =
    with_cons-IsPool (entered c n p) (enter c n p).cons
      (entered-IsPool c n p out r named noded free room) (λ b i e. enter-Alike c n p i)
