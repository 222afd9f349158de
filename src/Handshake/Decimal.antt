-- ===== src/Handshake/Decimal.antt =====
-- Go's strconv.Itoa and strconv.Atoi, on which the stream counts travel.
use webson.Common.{
  ℕ, zero, suc, ◌+◌, ◌-◌, ◌*◌, ◌/◌, ◌%◌, ◌^◌, ◌≤◌, ◌<◌, ◌≡◌, ap, sym, ◌∙◌, Bool, true, false,
  Bool-cases, inl, inr, ◌&&◌, if◌then◌else◌, ltb, leb, ◌==◌, ==_ne, le→leb, List, [], ◌∷◌, ◌++◌,
  Option, none, some, arith,
}

-- The decimal digits; as many as the fuel are enough.
unfoldable pub digits : ℕ → ℕ → List ℕ
digits zero n = []
digits (suc fuel) n =
    let front = digits fuel (n / 10) in
    if ltb n 10 then (48 + n) ∷ [] else front ++ ((48 + n % 10) ∷ [])

unfoldable pub itoa : ℕ → List ℕ
unfolding digits
itoa n = digits (n + 1) n

unfoldable pub parse_digits : ℕ → List ℕ → Option ℕ
parse_digits acc [] = some acc
parse_digits acc (b ∷ bs) =
    let rest = parse_digits (acc * 10 + (b - 48)) bs in if leb 48 b && leb b 57 then rest else none

abbrev sized : Bool → Option ℕ → Option (Bool × ℕ)
sized negative none = none
sized negative (some n) =
    if leb n (if negative then 2 ^ 63 else 2 ^ 63 - 1) then some (negative, n) else none

abbrev unsigned : Bool → List ℕ → Option (Bool × ℕ)
unsigned negative [] = none
unsigned negative (b ∷ bs) = sized negative (parse_digits 0 (b ∷ bs))

-- The sign and the magnitude, or none for a syntax or a range error.
unfoldable pub atoi : List ℕ → Option (Bool × ℕ)
atoi [] = none
atoi (b ∷ bs) =
    if b == 45
    then unsigned true bs
    else if b == 43
    then unsigned false bs
    else unsigned false (b ∷ bs)

parse_digits-snoc :
    (acc d : ℕ) (ds : List ℕ) (n : ℕ)
    → d < 10
    → parse_digits acc ds ≡ some n
    → parse_digits acc (ds ++ ((48 + d) ∷ [])) ≡ some (n * 10 + d)
unfolding parse_digits
parse_digits-snoc acc d [] n h e = ground arith
parse_digits-snoc acc d (b ∷ bs) n h e = elim (Bool-cases (leb 48 b && leb b 57)) [
  | inl q ↦ rw q (parse_digits-snoc (acc * 10 + (b - 48)) d bs n h (rw q at e))
  | inr q ↦ absurd (ground arith)
]

pub parse_digits-digits : (fuel n : ℕ) → n < fuel → parse_digits 0 (digits fuel n) ≡ some n
unfolding digits
parse_digits-digits zero n h = absurd (omega arith)
parse_digits-digits (suc fuel) n h = elim (Bool-cases (ltb n 10)) [
  | inl q ↦ rw q (unfold parse_digits in ground arith)
  | inr q ↦
      let ih = parse_digits-digits fuel (n / 10) (ground arith) in
      rw q (
        parse_digits-snoc 0 (n % 10) (digits fuel (n / 10)) (n / 10) (omega arith) ih
        ∙ ap some (omega arith))
]

-- The first byte is a digit.
digits-head :
    (fuel n : ℕ)
    → 0 < fuel
    → n < fuel
    → (d : ℕ) × (ds : List ℕ) × (digits fuel n ≡ d ∷ ds) × (48 ≤ d) × (d ≤ 57)
unfolding digits
digits-head zero n h k = absurd (omega arith)
digits-head (suc fuel) n h k = elim (Bool-cases (ltb n 10)) [
  | inl q ↦ (48 + n, [], rw q, omega arith, ground arith)
  | inr q ↦
      let (d, ds, e, lo, hi) = digits-head fuel (n / 10) (ground arith) (ground arith) in
      (d, ds ++ ((48 + n % 10) ∷ []), rw (q, e), lo, hi)
]

in_range : (n : ℕ) → n < 2 ^ 63 → sized false (some n) ≡ some (false, n)
in_range n h = rw (le→leb n (2 ^ 63 - 1) (omega arith))

atoi_cons :
    (d : ℕ) (ds : List ℕ) (n : ℕ)
    → 48 ≤ d
    → n < 2 ^ 63
    → parse_digits 0 (d ∷ ds) ≡ some n
    → atoi (d ∷ ds) ≡ some (false, n)
unfolding atoi
atoi_cons d ds n lo small e =
    rw (==_ne d 45 (omega arith), ==_ne d 43 (omega arith)) (ap (sized false) e ∙ in_range n small)

-- A stream count of 63 bits comes back from its decimal text as it was sent.
pub atoi-itoa : (n : ℕ) → n < 2 ^ 63 → atoi (itoa n) ≡ some (false, n)
unfolding itoa
atoi-itoa n h =
    let (d, ds, e, lo, hi) = digits-head (n + 1) n (omega arith) (omega arith) in
    let parsed : parse_digits 0 (d ∷ ds) ≡ some n =
      ap (parse_digits 0) (sym e) ∙ parse_digits-digits (n + 1) n (omega arith) in
    ap atoi e ∙ atoi_cons d ds n lo h parsed

pub itoa-cons : (n : ℕ) → (d : ℕ) × (ds : List ℕ) × (itoa n ≡ d ∷ ds)
unfolding itoa
itoa-cons n =
    let (d, ds, e, lo, hi) = digits-head (n + 1) n (omega arith) (omega arith) in (d, ds, e)
