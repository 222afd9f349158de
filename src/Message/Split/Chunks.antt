-- ===== src/Message/Split/Chunks.antt =====
-- `split` against a plain recursion that cuts off one chunk after the other.
use webson.Common.{
  ℕ, zero, suc, ◌+◌, ◌-◌, ◌*◌, ◌≤◌, ◌<◌, ◌≡◌, refl, ap, true, false, if◌then◌else◌, leb, ◌==◌, List,
  [], ◌∷◌, length, length-drop, take, drop, take_all, arith, Bool-cases, ltb-eq-false, ==_iff,
  nil_of_length, ==_ne, inl, inr,
}
use native.Mathlib.Nat.{div-mul-le_self, lt-div-mul-add, zero-add, suc-add}
use webson.Message.{Message}
use webson.Message.Split.{chunk_message, chunk_count, chunk_payload, split_from, split}

-- Cut `limit` bytes off the front while more than that are left. The fuel is the length.
unfoldable pub cut : ℕ → ℕ → List ℕ → List (List ℕ)
cut zero limit payload = payload ∷ []
cut (suc fuel) limit payload =
    let rest = cut fuel limit (drop limit payload) in
    if leb (length payload) limit then payload ∷ [] else take limit payload ∷ rest

-- The frames of a message: each chunk with its flag, which only the last one has.
unfoldable pub frames : Message → List (List ℕ) → List Message
frames m [] = []
frames m (c ∷ []) = chunk_message m true c ∷ []
frames m (c ∷ d ∷ cs) = chunk_message m false c ∷ frames m (d ∷ cs)

pub chunk_count_bounds :
    (size limit : ℕ)
    → 0 < limit
    → 0 < size
    → (size ≤ chunk_count size limit * limit)
      × ((chunk_count size limit - 1) * limit < size)
      × (0 < chunk_count size limit)
unfolding chunk_count
chunk_count_bounds size limit h k =
    grind (arith, div-mul-le_self size limit, lt-div-mul-add {a = size} h)

drop-drop : (a b : ℕ) (xs : List ℕ) → drop a (drop b xs) ≡ drop (b + a) xs
drop-drop a zero xs = rw zero-add
drop-drop zero (suc b) [] = rw suc-add
drop-drop (suc a) (suc b) [] = rw suc-add
drop-drop a (suc b) (x ∷ xs) = rw suc-add (drop-drop a b xs)

cut_last : (fuel limit : ℕ) (p : List ℕ) → length p ≤ limit → cut fuel limit p ≡ p ∷ []
unfolding cut
cut_last zero limit p h = refl
cut_last (suc fuel) limit p h = ground arith

cut_more :
    (fuel limit : ℕ) (p : List ℕ)
    → limit < length p
    → cut (suc fuel) limit p ≡ take limit p ∷ cut fuel limit (drop limit p)
unfolding cut
cut_more fuel limit p h = ground arith

-- A chunk in front of others does not complete the message.
frames-cut :
    (m : Message) (c : List ℕ) (fuel limit : ℕ) (p : List ℕ)
    → frames m (c ∷ cut fuel limit p) ≡ chunk_message m false c ∷ frames m (cut fuel limit p)
unfolding frames cut
frames-cut m c zero limit p = refl
frames-cut m c (suc fuel) limit p = elim (Bool-cases (leb (length p) limit)) [
  | inl e ↦ rw e
  | inr e ↦ rw e
]

chunk_payload_last :
    (p : List ℕ) (limit i : ℕ)
    → length p ≤ (i + 1) * limit
    → chunk_payload p limit i ≡ drop (i * limit) p
unfolding chunk_payload
chunk_payload_last p limit i h = take_all _ _ (ground (arith, length-drop (i * limit) p))

chunk_payload_inner :
    (p : List ℕ) (limit i : ℕ)
    → (i + 1) * limit ≤ length p
    → chunk_payload p limit i ≡ take limit (drop (i * limit) p)
unfolding chunk_payload
chunk_payload_inner p limit i h =
    rw (ltb-eq-false (length p) ((i + 1) * limit) h)
      (ap (λ (t : ℕ). take t (drop (i * limit) p)) (omega arith))

-- Chunk `i` and the `left` behind it are what cutting makes of the bytes from there on.
split_from-frames :
    (m : Message) (limit chunks left i fuel : ℕ)
    → chunks ≡ suc left + i
    → length m.payload ≤ (suc left + i) * limit
    → (left + i) * limit < length m.payload
    → left ≤ fuel
    → split_from m limit chunks (suc left) i
      ≡ frames m (cut fuel limit (drop (i * limit) m.payload))
unfolding split_from
split_from-frames m limit chunks zero i fuel e h k f =
    rw
      (
        cut_last fuel limit (drop (i * limit) m.payload)
            (omega (arith, length-drop (i * limit) m.payload)),
        chunk_payload_last m.payload limit i (omega arith),
        (==_iff i (chunks - 1)).1 (omega arith),
      )
      (unfold frames in refl)
split_from-frames m limit chunks (suc left) i zero e h k f = absurd (omega arith)
split_from-frames m limit chunks (suc left) i (suc fuel) e h k f =
    let more : (i + 1) * limit ≡ i * limit + limit = omega arith in
    let rest =
      split_from-frames m limit chunks left (i + 1) fuel (omega arith) (omega arith) (omega arith)
        (omega arith) in
    rw
      (
        cut_more fuel limit (drop (i * limit) m.payload)
            (omega (arith, length-drop (i * limit) m.payload)),
        frames-cut,
        chunk_payload_inner m.payload limit i (omega arith),
        ==_ne i (chunks - 1) (omega arith),
        drop-drop,
      )
      (ap (◌∷◌ (chunk_message m false (take limit (drop (i * limit) m.payload))))
        (rw (← more) rest))

le_of_mul-lt : (c limit n : ℕ) → 0 < limit → c * limit < n → c ≤ n
le_of_mul-lt c zero n l h = absurd (omega arith)
le_of_mul-lt c (suc limit) n l h = omega arith

split_all :
    (m : Message) (limit chunks : ℕ)
    → length m.payload ≤ chunks * limit
    → (chunks - 1) * limit < length m.payload
    → 0 < limit
    → split_from m limit chunks chunks 0 ≡ frames m (cut (length m.payload) limit m.payload)
split_all m limit zero h k l = absurd (omega arith)
split_all m limit (suc c) h k l =
    let start : 0 * limit ≡ 0 = omega arith in
    let whole : suc c ≡ suc c + 0 = omega arith in
    let before : suc c - 1 ≡ c + 0 = omega arith in
    let same : suc c - 1 ≡ c = omega arith in
    rw start at (
      split_from-frames m limit (suc c) c 0 (length m.payload) whole (rw (← whole) h)
        (rw (← before) k) (le_of_mul-lt c limit _ l (rw (← same) k)))

split_empty :
    (m : Message) (limit : ℕ)
    → length m.payload ≡ 0
    → chunk_message m true [] ∷ [] ≡ frames m (cut (length m.payload) limit m.payload)
split_empty m limit e =
    rw (cut_last (length m.payload) limit m.payload (omega arith), nil_of_length m.payload e)
      (unfold frames in refl)

-- For a limit above 0, split gives the same frames as cutting off one chunk after the other, where
-- only the last one completes the message.
pub split-frames :
    (m : Message) (limit : ℕ)
    → 0 < limit
    → split m limit ≡ frames m (cut (length m.payload) limit m.payload)
unfolding split
split-frames m limit h = elim (Bool-cases (length m.payload == 0)) [
  | inl e ↦ rw e (split_empty m limit ((==_iff _ _).0 e))
  | inr e ↦
      let b = chunk_count_bounds (length m.payload) limit h (ground arith) in
      rw e (split_all m limit (chunk_count (length m.payload) limit) b.0 b.1 h)
]
