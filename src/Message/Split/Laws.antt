-- ===== src/Message/Split/Laws.antt =====
-- What the frames of a message carry.
use webson.Common.{
  ℕ, zero, suc, ◌+◌, ◌≤◌, ◌<◌, ◌≡◌, refl, ap, true, false, leb, Bool-cases, inl, inr, List, [], ◌∷◌,
  ◌++◌, length, length-take, length-drop, take, drop, take-append-drop, flatten, All, take-All,
  drop-All, arith, map, replicate,
}
use mathlib.Core.List.{append-nil}
use webson.Common.Words.{IsByte}
use webson.Message.{Message}
use webson.Message.Split.{split, chunk_message}
use webson.Message.Split.Chunks.{cut, frames, split-frames}

pub flatten-cut : (fuel limit : ℕ) (p : List ℕ) → flatten (cut fuel limit p) ≡ p
unfolding cut
flatten-cut zero limit p = append-nil p
flatten-cut (suc fuel) limit p = elim (Bool-cases (leb (length p) limit)) [
  | inl e ↦ rw e (append-nil p)
  | inr e ↦ rw (e, flatten-cut fuel limit (drop limit p)) (take-append-drop limit p)
]

abbrev pub Fits : ℕ → List ℕ → Type 0
Fits limit chunk = length chunk ≤ limit

pub cut-Fits :
    (fuel limit : ℕ) (p : List ℕ)
    → 0 < limit
    → length p ≤ fuel + limit
    → All (Fits limit) (cut fuel limit p)
unfolding cut
cut-Fits zero limit p h k = omega arith
cut-Fits (suc fuel) limit p h k = elim (Bool-cases (leb (length p) limit)) [
  | inl e ↦ rw e (ground arith)
  | inr e ↦ rw e (
    omega (arith, length-take limit p),
    cut-Fits fuel limit (drop limit p) h (omega (arith, length-drop limit p)),
  )
]

pub cut-IsByte : (fuel limit : ℕ) (p : List ℕ) → All IsByte p → All (All IsByte) (cut fuel limit p)
unfolding cut
cut-IsByte zero limit p h = (h, tt)
cut-IsByte (suc fuel) limit p h = elim (Bool-cases (leb (length p) limit)) [
  | inl e ↦ rw e (h, tt)
  | inr e ↦
      rw e (
        take-All IsByte limit p h,
        cut-IsByte fuel limit (drop limit p) (drop-All IsByte limit p h),
      )
]

pub frames-payloads : (m : Message) (cs : List (List ℕ)) → map (λ c. c.payload) (frames m cs) ≡ cs
unfolding frames chunk_message
frames-payloads m [] = refl
frames-payloads m (c ∷ []) = refl
frames-payloads m (c ∷ d ∷ cs) = ap (◌∷◌ c) (frames-payloads m (d ∷ cs))

frames-flags :
    (m : Message) (c : List ℕ) (cs : List (List ℕ))
    → map (λ f. f.is_complete) (frames m (c ∷ cs)) ≡ replicate (length cs) false ++ (true ∷ [])
unfolding frames chunk_message
frames-flags m c [] = refl
frames-flags m c (d ∷ cs) = ap (◌∷◌ false) (frames-flags m d cs)

-- For a limit above 0, the payloads of the frames of split are, one behind the other, the payload
-- of the message, and none is longer than the limit.
pub split-payloads :
    (m : Message) (limit : ℕ)
    → 0 < limit
    → (flatten (map (λ c. c.payload) (split m limit)) ≡ m.payload)
      × All (Fits limit) (map (λ c. c.payload) (split m limit))
split-payloads m limit h =
    rw (split-frames m limit h, frames-payloads)
      (
        flatten-cut (length m.payload) limit m.payload,
        cut-Fits (length m.payload) limit m.payload h (omega arith),
      )

pub cut-cons :
    (fuel limit : ℕ) (p : List ℕ)
    → (c : List ℕ) × (cs : List (List ℕ)) × (cut fuel limit p ≡ c ∷ cs)
unfolding cut
cut-cons zero limit p = (p, [], refl)
cut-cons (suc fuel) limit p = elim (Bool-cases (leb (length p) limit)) [
  | inl e ↦ (p, [], rw e)
  | inr e ↦ (take limit p, cut fuel limit (drop limit p), rw e)
]

-- For a limit above 0, split gives a last frame, and it alone is marked complete.
pub split-flags :
    (m : Message) (limit : ℕ)
    → 0 < limit
    → (n : ℕ) × (map (λ c. c.is_complete) (split m limit) ≡ replicate n false ++ (true ∷ []))
split-flags m limit h =
    let (c, cs, e) = cut-cons (length m.payload) limit m.payload in
    (length cs, rw (split-frames m limit h, e) (frames-flags m c cs))
