-- ===== src/Handshake/Whole/Plain.antt =====
-- The header fields of the answer, as lines.
use webson.Common.{
  ℕ, zero, suc, ◌+◌, ◌*◌, ◌/◌, ◌%◌, ◌^◌, ◌≤◌, ◌<◌, ◌≡◌, refl, ap, ◌∙◌, Bool, true, false,
  Bool-cases, inl, inr, ◌&&◌, if◌then◌else◌, ltb, ◌==◌, bytes_eq, codes, List, [], ◌∷◌, ◌++◌,
  Option, none, some, length, All, length-append, arith,
}
use Prim.Native.Nat.pow
use webson.Handshake.{max_streams_key, extensions_key, accept_key, deflate_extension}
use webson.Handshake.Decimal.{digits, itoa}
use webson.Handshake.Fields.{canonical, is_token, dashed}
use webson.Handshake.Lines.Laws.{no_break}
use webson.Handshake.Server.{lower_all, answer_fields}
use webson.Handshake.Answer.{title, trim, trim_left, trim_right, cons_trimmed}
use webson.Handshake.Whole.Reply.{listed_some}
use webson.Handshake.Answer.RoundTrip.{IsPlain, no_colon}

-- Bytes above the space: nothing to trim, and no break.
abbrev pub visible : List ℕ → Bool
visible [] = true
visible (b ∷ bs) = ltb 32 b && visible bs

visible-no_break : (s : List ℕ) → visible s ≡ true → no_break s ≡ true
visible-no_break [] h = refl
visible-no_break (b ∷ s) h = let ih = visible-no_break s (ground arith) in ground arith

trim_right-visible : (s : List ℕ) → visible s ≡ true → trim_right s ≡ s
unfolding trim_right
trim_right-visible [] h = refl
trim_right-visible (b ∷ []) h = let no : (b == 32) ≡ false = ground arith in rw no refl
trim_right-visible (b ∷ c ∷ s) h = ap (cons_trimmed b) (trim_right-visible (c ∷ s) (ground arith))

trim_left-visible : (s : List ℕ) → visible s ≡ true → trim_left s ≡ s
unfolding trim_left
trim_left-visible [] h = refl
trim_left-visible (b ∷ s) h = let no : (b == 32) ≡ false = ground arith in rw no refl

visible-trim : (s : List ℕ) → visible s ≡ true → trim s ≡ s
unfolding trim
visible-trim s h = ap trim_right (trim_left-visible s h) ∙ trim_right-visible s h

visible-append : (s t : List ℕ) → visible s ≡ true → visible t ≡ true → visible (s ++ t) ≡ true
visible-append [] t h k = k
visible-append (b ∷ s) t h k = let ih = visible-append s t (ground arith) k in ground arith

digits-visible : (fuel n : ℕ) → visible (digits fuel n) ≡ true
unfolding digits
digits-visible zero n = refl
digits-visible (suc fuel) n = elim (Bool-cases (ltb n 10)) [
  | inl q ↦ rw q (ground arith)
  | inr q ↦ rw q (
      visible-append (digits fuel (n / 10)) ((48 + n % 10) ∷ []) (digits-visible fuel (n / 10))
        (ground arith))
]

-- A number below ten to the `k` has `k` digits at most.
length-digits : (k fuel n : ℕ) → 1 ≤ k → n < 10 ^ k → length (digits fuel n) ≤ k
unfolding digits
length-digits k zero n one h = omega arith
length-digits zero (suc fuel) n one h = absurd (omega arith)
length-digits (suc zero) (suc fuel) n one h =
    let q : ltb n 10 ≡ true = ground arith in rw q (omega arith)
length-digits (suc (suc k)) (suc fuel) n one h = elim (Bool-cases (ltb n 10)) [
  | inl q ↦ rw q (omega arith)
  | inr q ↦
      let p : 10 ^ suc (suc k) ≡ 10 ^ suc k * 10 = pow.suc 10 (suc k) in
      let ih = length-digits (suc k) fuel (n / 10) (omega arith) (omega arith) in
      rw q (omega (arith, length-append (digits fuel (n / 10)) ((48 + n % 10) ∷ [])))
]

-- A value that a line has room for, next to the longest key of the answer.
pub record IsValue (size : ℕ) (v : List ℕ) : Type 0 where
  pub value_break : no_break v ≡ true
  pub value_trim : trim v ≡ v
  pub room : length v + 28 ≤ size

pub itoa-IsValue : (size n : ℕ) → n < 100000 → 33 ≤ size → IsValue size (itoa n)
unfolding itoa
itoa-IsValue size n small room =
    let v = digits-visible (n + 1) n in
    let l = length-digits 5 (n + 1) n (omega arith) small in
    record {
      value_break = visible-no_break (itoa n) v;
      value_trim = visible-trim (itoa n) v;
      room = omega arith;
    }

extensions-IsValue : (size : ℕ) → 200 ≤ size → IsValue size deflate_extension
unfolding trim trim_left trim_right
extensions-IsValue size h = record { value_break = refl; value_trim = refl; room = omega arith }

upgrade-IsValue :
    (size : ℕ) → 200 ≤ size → IsValue size (codes "Upgrade") × IsValue size (codes "websocket")
unfolding trim trim_left trim_right
upgrade-IsValue size h = (
  record { value_break = refl; value_trim = refl; room = omega arith },
  record { value_break = refl; value_trim = refl; room = omega arith },
)

-- The five keys of the answer.
key-IsPlain :
    (size : ℕ) (k v : List ℕ)
    → bytes_eq k [] ≡ false
    → no_colon k ≡ true
    → no_break k ≡ true
    → canonical (title true (lower_all k)) ≡ k
    → length k ≤ 24
    → IsValue size v
    → IsPlain size (k, v)
key-IsPlain size k v a b c d l x = record {
  key_some = a;
  key_colon = b;
  key_break = c;
  key_canonical = d;
  value_break = x.value_break;
  value_trim = x.value_trim;
  room = omega (arith, x.room);
}

canonical_keys :
    (canonical (title true (lower_all (codes "Upgrade"))) ≡ codes "Upgrade")
    × (canonical (title true (lower_all (codes "Connection"))) ≡ codes "Connection")
    × (canonical (title true (lower_all accept_key)) ≡ accept_key)
    × (canonical (title true (lower_all max_streams_key)) ≡ max_streams_key)
    × (canonical (title true (lower_all extensions_key)) ≡ extensions_key)
unfolding canonical is_token dashed title lower_all
canonical_keys = (refl, refl, refl, refl, refl)

-- The fields that the answer may leave out.
extension-IsPlain :
    (size : ℕ) (on : Bool)
    → 200 ≤ size
    → All (IsPlain size) (if on then (extensions_key, deflate_extension) ∷ [] else [])
extension-IsPlain size false room = tt
extension-IsPlain size true room =
    let (u, c, k, m, e) = canonical_keys in
    (key-IsPlain size _ _ refl refl refl e (omega arith) (extensions-IsValue size room), tt)

optional-IsPlain :
    (size : ℕ) (on : Bool) (answer : Option (List ℕ))
    → 200 ≤ size
    → All (IsValue size) (listed_some answer)
    → All (IsPlain size) (
        elim answer [ none ↦ [] | some n ↦ (max_streams_key, n) ∷ [] ]
        ++ (if on then (extensions_key, deflate_extension) ∷ [] else []))
optional-IsPlain size on none room v = extension-IsPlain size on room
optional-IsPlain size on (some n) room (v, t) =
    let (u, c, k, m, e) = canonical_keys in
    (key-IsPlain size _ _ refl refl refl m (omega arith) v, extension-IsPlain size on room)

pub answer-IsPlain :
    (size : ℕ) (on : Bool) (answer : Option (List ℕ)) (accept : List ℕ)
    → 200 ≤ size
    → IsValue size accept
    → All (IsValue size) (listed_some answer)
    → All (IsPlain size) (answer_fields on answer accept)
unfolding answer_fields
answer-IsPlain size on answer accept room a limit =
    let (u, c, k, m, e) = canonical_keys in
    let (up, ws) = upgrade-IsValue size room in
    (
      key-IsPlain size _ _ refl refl refl u (omega arith) ws,
      (
        key-IsPlain size _ _ refl refl refl c (omega arith) up,
        (
          key-IsPlain size _ _ refl refl refl k (omega arith) a,
          optional-IsPlain size on answer room limit,
        ),
      ),
    )
