-- ===== src/Connection/Streams/Alloc.antt =====
-- connection.go: the loop of `patchMsg` that searches for a free stream id.
use webson.Common.{
  ℕ, zero, suc, ◌+◌, ◌≤◌, ◌<◌, ◌≡◌, ◌≢◌, inl, inr, true, false, Bool-cases, if◌then◌else◌, ltb,
  List, [], ◌∷◌, arith, ltb→lt, ◌==◌, ==_iff, ==_refl, refl,
}
use webson.Connection.{Connection}
use webson.Connection.Streams.{Search, found, spent, out_of_fuel, in_use, find_id, release_id}

-- No id twice.
abbrev pub Distinct : List ℕ → Type 0
Distinct [] = Unit {0}
Distinct (i ∷ ids) = (in_use i ids ≡ false) × Distinct ids

-- After the search has started over, one round decides.
find_id_over :
    (fuel max : ℕ) (ids : List ℕ) (last : ℕ)
    → max ≤ last
    → find_id (suc fuel) max ids last false ≡ (if in_use 1 ids then spent 1 else found 1)
unfolding find_id
find_id_over fuel max ids last h = ground arith

-- Before that, an id in use is passed over.
find_id_next :
    (fuel max : ℕ) (ids : List ℕ) (last : ℕ)
    → last < max
    → find_id (suc fuel) max ids last false
      ≡ (if in_use (last + 1) ids then find_id fuel max ids (last + 1) false else found (last + 1))
unfolding find_id
find_id_next fuel max ids last h = ground arith

-- All the ids from `last` to `max` are taken.
abbrev pub AllTaken : ℕ → ℕ → List ℕ → Type 0
AllTaken last max ids = (j : ℕ) → last < j → j ≤ max → in_use j ids ≡ true

-- What the search finds: the first free id behind `last`, else the id 1, if that is free.
pub record IsSearch (max : ℕ) (ids : List ℕ) (last : ℕ) (s : Search) : Type 0 where
  pub finds : (i : ℕ) → s ≡ found i → (in_use i ids ≡ false) × (1 ≤ i) × (i ≤ max)
  pub gives_up : (i : ℕ) → s ≡ spent i → (i ≡ 1) × (in_use 1 ids ≡ true) × AllTaken last max ids
  pub ends : s ≢ out_of_fuel

AllTaken-cons :
    (last max : ℕ) (ids : List ℕ)
    → in_use (last + 1) ids ≡ true
    → AllTaken (last + 1) max ids
    → AllTaken last max ids
AllTaken-cons last max ids h k j l m = elim (Bool-cases (j == last + 1)) [
  | inl e ↦ rw ((==_iff j (last + 1)).0 e) h
  | inr e ↦ k j (ground arith) m
]

-- The two ways in which a round ends the search.
IsSearch-first :
    (max : ℕ) (ids : List ℕ) (last : ℕ)
    → 1 ≤ max
    → max ≤ last
    → IsSearch max ids last (if in_use 1 ids then spent 1 else found 1)
IsSearch-first max ids last h k = elim (Bool-cases (in_use 1 ids)) [
  | inl e ↦ rw e (record {
    finds = λ i q. cc;
    gives_up = λ i q. (ground arith, e, λ j l m. absurd (omega arith));
    ends = λ q. cc;
  })
  | inr e ↦ rw e (record { finds = λ i q. ground arith; gives_up = λ i q. cc; ends = λ q. cc })
]

IsSearch-found :
    (max : ℕ) (ids : List ℕ) (last : ℕ)
    → last < max
    → in_use (last + 1) ids ≡ false
    → IsSearch max ids last (found (last + 1))
IsSearch-found max ids last h e = record {
  finds = λ i q. ground arith;
  gives_up = λ i q. cc;
  ends = λ q. cc;
}

IsSearch-next :
    (max : ℕ) (ids : List ℕ) (last : ℕ) (s : Search)
    → in_use (last + 1) ids ≡ true
    → IsSearch max ids (last + 1) s
    → IsSearch max ids last s
IsSearch-next max ids last s e r = record {
  finds = r.finds;
  gives_up = λ i q.
      let (one, taken, all) = r.gives_up i q in (one, taken, AllTaken-cons last max ids e all);
  ends = r.ends;
}

-- With the last id within the limit and fuel that reaches past the limit, the search ends: with a
-- free id between 1 and the limit, or with the id 1 in use and all the ids behind the last one
-- taken.
pub find_id-IsSearch :
    (fuel max : ℕ) (ids : List ℕ) (last : ℕ)
    → 1 ≤ max
    → last ≤ max
    → max < fuel + last
    → IsSearch max ids last (find_id fuel max ids last false)
find_id-IsSearch zero max ids last h l k = absurd (omega arith)
find_id-IsSearch (suc fuel) max ids last h l k = elim (Bool-cases (ltb last max)) [
  | inr over ↦
      rw (find_id_over fuel max ids last (ground arith))
        (IsSearch-first max ids last h (ground arith))
  | inl more ↦ elim (Bool-cases (in_use (last + 1) ids)) [
    | inl e ↦
        rw (find_id_next fuel max ids last (ltb→lt _ _ more), e)
          (IsSearch-next max ids last _ e (
            find_id-IsSearch fuel max ids (last + 1) h (omega (arith, ltb→lt last max more))
              (omega arith)))
    | inr e ↦
        rw (find_id_next fuel max ids last (ltb→lt _ _ more), e)
          (IsSearch-found max ids last (ltb→lt last max more) e)
  ]
]

-- The ids in use are distinct and lie between 1 and the limit, as does the last one given out.
pub record IdsOk (con : Connection) : Type 0 where
  pub some_ids : 1 ≤ con.config.max_streams
  pub last_ok : con.last_stream ≤ con.config.max_streams
  pub in_range :
      (i : ℕ) → in_use i con.in_use_streams ≡ true → (1 ≤ i) × (i ≤ con.config.max_streams)
  pub distinct : Distinct con.in_use_streams

pub release_id-absent : (c : ℕ) (cs : List ℕ) → in_use c cs ≡ false → release_id c cs ≡ cs
unfolding release_id in_use
release_id-absent c [] h = refl
release_id-absent c (i ∷ cs) h = let rest = release_id-absent c cs (ground arith) in ground arith

-- An id that is given out and given back.
pub release_id-first : (i : ℕ) (ids : List ℕ) → in_use i ids ≡ false → release_id i (i ∷ ids) ≡ ids
unfolding release_id
release_id-first i ids free = rw (==_refl i) (release_id-absent i ids free)
