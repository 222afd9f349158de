-- ===== src/Handshake/Lines/Laws.antt =====
-- Lines out of a reader, however the network cuts them into pieces.
use webson.Common.{
  ℕ, ◌+◌, ◌-◌, ◌≤◌, ◌≡◌, refl, sym, ap, ap₂, ◌∙◌, ◌⊎◌, inl, inr, Bool, true, false, Bool-cases, not,
  ◌&&◌, leb, ◌==◌, List, [], ◌∷◌, ◌++◌, none, some, length, take, drop, flatten, length-append,
  take-append-drop, length-take, leb-eq-false, arith,
}
use mathlib.Core.List.{append_assoc}
use webson.Reader.{Reader, remaining}
use webson.Handshake.Lines.{
  cut_newline, Slice, found, full, found_or, read_slice, drop_return, line, line_of, read_line,
}

-- No byte of the text ends a line.
abbrev pub no_break : List ℕ → Bool
no_break [] = true
no_break (b ∷ bs) = not (b == 10) && (not (b == 13) && no_break bs)

drop_return-crlf : (s : List ℕ) → drop_return (s ++ (13 ∷ [])) ≡ s
unfolding drop_return
drop_return-crlf [] = refl
drop_return-crlf (b ∷ []) = refl
drop_return-crlf (b ∷ c ∷ s) = ap (λ t. b ∷ t) (drop_return-crlf (c ∷ s))

cut_newline-cons_none :
    (b : ℕ) (bs : List ℕ) → (b == 10) ≡ false → cut_newline bs ≡ none → cut_newline (b ∷ bs) ≡ none
unfolding cut_newline
cut_newline-cons_none b bs h e = rw (h, e)

cut_newline-cons_some :
    (b : ℕ) (bs before after : List ℕ)
    → (b == 10) ≡ false
    → cut_newline bs ≡ some (before, after)
    → cut_newline (b ∷ bs) ≡ some (b ∷ before, after)
unfolding cut_newline
cut_newline-cons_some b bs before after h e = rw (h, e)

cut_newline-crlf : (xs : List ℕ) → cut_newline (13 ∷ 10 ∷ xs) ≡ some (13 ∷ [], xs)
unfolding cut_newline
cut_newline-crlf xs = refl

-- The front of a text that starts with a line: too short for its newline, or the line is cut off.
pub Cut : List ℕ → List ℕ → List ℕ → List ℕ → Type 0
Cut xs ys s rest =
    ((cut_newline xs ≡ none) × (length xs ≤ length s + 1))
    ⊎ ((after : List ℕ) × (cut_newline xs ≡ some (s ++ (13 ∷ []), after)) × (after ++ ys ≡ rest))

Cut-front :
    (s xs ys rest : List ℕ)
    → no_break s ≡ true
    → xs ++ ys ≡ s ++ (13 ∷ 10 ∷ rest)
    → Cut xs ys s rest
unfolding Cut
Cut-front s [] ys rest h e = inl (unfold cut_newline in refl, omega arith)
Cut-front [] (b ∷ []) ys rest h e =
    let eb : b ≡ 13 = cc in
    inl (cut_newline-cons_none b [] (ground arith) (unfold cut_newline in refl), omega arith)
Cut-front [] (b ∷ c ∷ xs) ys rest h e =
    let eb : b ≡ 13 = cc in
    let ec : c ≡ 10 = cc in
    let er : xs ++ ys ≡ rest = cc in
    inr (xs, ap₂ (λ x y. cut_newline (x ∷ y ∷ xs)) eb ec ∙ cut_newline-crlf xs, er)
Cut-front (d ∷ s) (b ∷ xs) ys rest h e =
    let eb : b ≡ d = cc in
    let er : xs ++ ys ≡ s ++ (13 ∷ 10 ∷ rest) = cc in
    let no : (b == 10) ≡ false = ground arith in
    let clean : no_break s ≡ true = ground arith in
    elim (Cut-front s xs ys rest clean er) [
      | inl (q, l) ↦ inl (cut_newline-cons_none b xs no q, omega arith)
      | inr (after, q, r) ↦ inr (
        after,
        (cut_newline-cons_some b xs _ after no q ∙ ap (λ x. some (x ∷ (s ++ (13 ∷ [])), after)) eb),
        r,
      )
    ]

-- What `read_slice` gives for a line that fits into the buffer: the line, and all that is behind it.
pub IsCut : Slice → List ℕ → List ℕ → Type 0
IsCut slice s rest =
    (after : List ℕ) × (pending : List (List ℕ)) × (slice ≡ found (s ++ (13 ∷ [])) after pending)
    × (after ++ flatten pending ≡ rest)

-- The newline is in the buffer already, or there is room left.
now_or_later :
    (size : ℕ) (s buffered rest : List ℕ) (pending : List (List ℕ)) (other : Slice)
    → no_break s ≡ true
    → length s + 2 ≤ size
    → buffered ++ flatten pending ≡ s ++ (13 ∷ 10 ∷ rest)
    → (leb size (length buffered) ≡ false → IsCut other s rest)
    → IsCut (found_or pending other (cut_newline buffered)) s rest
unfolding Cut IsCut
now_or_later size s buffered rest pending other h fits e later =
    elim (Cut-front s buffered (flatten pending) rest h e) [
      | inr (after, q, r) ↦ (after, pending, ap (found_or pending other) q, r)
      | inl (q, l) ↦
          let (after, p, k, r) = later (leb-eq-false size (length buffered) (omega arith)) in
          (after, p, ap (found_or pending other) q ∙ k, r)
    ]

-- A buffer that is full has the newline.
full_enough :
    (size : ℕ) (s buffered rest : List ℕ) (pending : List (List ℕ)) (other : Slice)
    → no_break s ≡ true
    → length s + 2 ≤ length buffered
    → buffered ++ flatten pending ≡ s ++ (13 ∷ 10 ∷ rest)
    → IsCut (found_or pending other (cut_newline buffered)) s rest
unfolding Cut IsCut
full_enough size s buffered rest pending other h long e =
    elim (Cut-front s buffered (flatten pending) rest h e) [
      | inr (after, q, r) ↦ (after, pending, ap (found_or pending other) q, r)
      | inl (q, l) ↦ absurd (omega arith)
    ]

length-line : (s rest : List ℕ) → length (s ++ (13 ∷ 10 ∷ rest)) ≡ length s + 2 + length rest
length-line s rest = omega (arith, length-append s (13 ∷ 10 ∷ rest))

flatten_front :
    (n : ℕ) (buffered piece : List ℕ) (pending : List (List ℕ))
    → (buffered ++ take n piece) ++ flatten (drop n piece ∷ pending)
      ≡ buffered ++ flatten (piece ∷ pending)
flatten_front n buffered piece pending =
    append_assoc buffered (take n piece) _
    ∙ ap (λ t. buffered ++ t)
        (sym (append_assoc (take n piece) _ (flatten pending))
          ∙ ap (λ t. t ++ flatten pending) (take-append-drop n piece))

length-room :
    (size : ℕ) (buffered piece : List ℕ)
    → leb size (length buffered) ≡ false
    → leb (length piece) (size - length buffered) ≡ false
    → size ≤ length (buffered ++ take (size - length buffered) piece)
length-room size buffered piece room big =
    let a = length-append buffered (take (size - length buffered) piece) in
    let b = length-take (size - length buffered) piece in ground arith

pub read_slice-IsCut :
    (size : ℕ) (s rest buffered : List ℕ) (pending : List (List ℕ))
    → no_break s ≡ true
    → length s + 2 ≤ size
    → buffered ++ flatten pending ≡ s ++ (13 ∷ 10 ∷ rest)
    → IsCut (read_slice size buffered pending) s rest
unfolding read_slice
read_slice-IsCut size s rest buffered [] h fits e =
    let a = length-append buffered [] in
    let b = length-line s rest in
    let c : length (buffered ++ []) ≡ length (s ++ (13 ∷ 10 ∷ rest)) = ap length e in
    full_enough size s buffered rest [] _ h (omega arith) e
read_slice-IsCut size s rest buffered (piece ∷ pending) h fits e =
    let room = size - length buffered in
    now_or_later size s buffered rest (piece ∷ pending) _ h fits e (λ open_.
      elim (Bool-cases (leb (length piece) room)) [
        | inl small ↦
            rw (open_, small)
              (read_slice-IsCut size s rest (buffered ++ piece) pending h fits
                (append_assoc buffered piece (flatten pending) ∙ e))
        | inr big ↦
            let long = length-room size buffered piece open_ big in
            rw (open_, big)
              (full_enough size s (buffered ++ take room piece) rest (drop room piece ∷ pending)
                full h (omega arith) (flatten_front room buffered piece pending ∙ e))
      ])

-- A line that fits into the buffer is read, and what is left is what was behind it.
pub read_line-found :
    (r : Reader) (s rest : List ℕ)
    → no_break s ≡ true
    → length s + 2 ≤ r.size
    → remaining r ≡ s ++ (13 ∷ 10 ∷ rest)
    → (r' : Reader) × (read_line r ≡ line s r') × (remaining r' ≡ rest) × (r'.size ≡ r.size)
unfolding read_line IsCut
read_line-found r s rest h fits e =
    let (after, pending, q, k) = read_slice-IsCut r.size s rest r.buffered r.pending h fits e in
    let r' : Reader = record r { buffered = after; pending = pending } in
    (r', ap (line_of r) q ∙ ap (λ t. line t r') (drop_return-crlf s), k, refl)
