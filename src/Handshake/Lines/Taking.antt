-- ===== src/Handshake/Lines/Taking.antt =====
-- What a line takes from the network.
use webson.Common.{
  ℕ, suc, ◌+◌, ◌-◌, ◌≤◌, ◌<◌, ◌≡◌, sym, ap, ◌∙◌, inl, inr, Bool, true, false, Bool-cases,
  Option-cases, if◌then◌else◌, leb, ◌==◌, List, [], ◌∷◌, ◌++◌, Option, some, length, take, drop,
  flatten, length-append, take-append-drop, arith,
}
use webson.Reader.{Reader, remaining}
use webson.Handshake.Lines.{
  cut_newline, Slice, found, full, ended, found_or, read_slice, line, line_of, read_line,
}

cut_newline-length :
    (bs before after : List ℕ)
    → cut_newline bs ≡ some (before, after)
    → length before + 1 + length after ≡ length bs
unfolding cut_newline
cut_newline-length [] before after e = absurd cc
cut_newline-length (b ∷ bs) before after e = elim (Bool-cases (b == 10)) [
  | inl q ↦
      let e' : ◌≡◌ {A = Option (List ℕ × List ℕ)} (some ([], bs)) (some (before, after)) =
        rw q at e in
      let e1 : [] ≡ before = cc in let e2 : bs ≡ after = cc in rw (sym e1, sym e2) (omega arith)
  | inr q ↦ elim (Option-cases (cut_newline bs)) [
    | inl n ↦ absurd (let e' = rw (q, n) at e in cc)
    | inr ((x, y), n) ↦
        let ih = cut_newline-length bs x y n in
        let e' : ◌≡◌ {A = Option (List ℕ × List ℕ)} (some (b ∷ x, y)) (some (before, after)) =
          rw (q, n) at e in
        let e1 : b ∷ x ≡ before = cc in let e2 : y ≡ after = cc in rw (sym e1, sym e2) (omega arith)
  ]
]

-- The bytes that a slice leaves are fewer than there were.
pub left : Slice → ℕ
left (found before after pending) = suc (length after + length (flatten pending))
left full = 0
left (ended bs) = length bs

found_or-left :
    (n : ℕ) (buffered : List ℕ) (pending : List (List ℕ)) (other : Slice)
    → length buffered + length (flatten pending) ≤ n
    → left other ≤ n
    → left (found_or pending other (cut_newline buffered)) ≤ n
unfolding left
found_or-left n buffered pending other h k = elim (Option-cases (cut_newline buffered)) [
  | inl q ↦ rw q k
  | inr ((before, after), q) ↦
      let l = cut_newline-length buffered before after q in rw q (omega arith)
]

if-left : (n : ℕ) (b : Bool) (x y : Slice) → left x ≤ n → left y ≤ n → left (if b then x else y) ≤ n
if-left n true x y h k = h
if-left n false x y h k = k

pub read_slice-left :
    (size : ℕ) (buffered : List ℕ) (pending : List (List ℕ))
    → left (read_slice size buffered pending) ≤ length buffered + length (flatten pending)
unfolding read_slice left
read_slice-left size buffered [] =
    found_or-left _ buffered [] _ (omega arith)
      (if-left _ (leb size (length buffered)) full (ended buffered) (omega arith) (omega arith))
read_slice-left size buffered (piece ∷ pending) =
    let room = size - length buffered in
    let total = length buffered + length (flatten (piece ∷ pending)) in
    let a = length-append piece (flatten pending) in
    let b = length-append buffered piece in
    let c = length-append buffered (take room piece) in
    let d = length-append (drop room piece) (flatten pending) in
    let f : length (take room piece) + length (drop room piece) ≡ length piece =
      sym (length-append (take room piece) (drop room piece))
      ∙ ap length (take-append-drop room piece) in
    let ih = read_slice-left size (buffered ++ piece) pending in
    found_or-left total buffered (piece ∷ pending) _ (omega arith) (
      if-left total (leb size (length buffered)) full _ (omega arith) (
        if-left total (leb (length piece) room) _ _ (omega arith) (
          found_or-left total (buffered ++ take room piece) (drop room piece ∷ pending) full
            (omega arith) (omega arith))))

line_of-left :
    (r r' : Reader) (slice : Slice) (bs : List ℕ) (n : ℕ)
    → line_of r slice ≡ line bs r'
    → left slice ≤ n
    → length (remaining r') < n
unfolding left
line_of-left r r' (found before after pending) bs n e h =
    let q : record r { buffered = after; pending = pending } ≡ r' = cc in
    rw (sym q) (omega (arith, length-append after (flatten pending)))
line_of-left r r' full bs n e h = absurd cc
line_of-left r r' (ended []) bs n e h = absurd cc
line_of-left r r' (ended (b ∷ c)) bs n e h =
    let q : record r { buffered = []; pending = [] } ≡ r' = cc in rw (sym q) (omega arith)

-- A line takes a byte at least.
pub read_line-left :
    (r r' : Reader) (bs : List ℕ)
    → read_line r ≡ line bs r'
    → length (remaining r') < length (remaining r)
unfolding read_line
read_line-left r r' bs e =
    let a = length-append r.buffered (flatten r.pending) in
    let b = read_slice-left r.size r.buffered r.pending in
    line_of-left r r' (read_slice r.size r.buffered r.pending) bs (length (remaining r)) e
      (omega arith)
