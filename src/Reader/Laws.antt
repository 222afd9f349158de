-- ===== src/Reader/Laws.antt =====
-- The bytes that a bufio.Reader hands out, and those that it still has to hand out.
use webson.Common.{
  ℕ, ◌-◌, ◌≤◌, ◌≡◌, refl, sym, ap, ◌∙◌, Bool-cases, inl, inr, ltb, leb, ltb-eq-false, ◌&&◌, List,
  [], ◌∷◌, ◌++◌, none, length, take, drop, flatten, take-append-drop, length-take, take-append_left,
  drop-append_left, length-append, arith,
}
use mathlib.Core.List.{append_assoc}
use webson.Reader.{
  Reader, read, read_empty, fetch, fill, peek, filled, peek_filled, discard, remaining,
}

fetch_lem :
    (room : ℕ) (piece : List ℕ) (pending : List (List ℕ))
    → (fetch room piece pending).0 ++ flatten (fetch room piece pending).1
      ≡ piece ++ flatten pending
unfolding fetch
fetch_lem room piece pending = elim (Bool-cases (leb (length piece) room)) [
  | inl e ↦ rw e
  | inr e ↦ rw e (
      sym (append_assoc (take room piece) (drop room piece) (flatten pending))
      ∙ ap (λ t. t ++ flatten pending) (take-append-drop room piece))
]

read_empty_lem :
    (n : ℕ) (pending : List (List ℕ)) (r : Reader)
    → r.buffered ≡ []
    → r.pending ≡ pending
    → (read_empty n pending r).0 ++ remaining (read_empty n pending r).2 ≡ flatten pending
unfolding read_empty
read_empty_lem n [] r e h = rw (e, h)
read_empty_lem n (piece ∷ pending) r e h =
    let (got, rest) = fetch r.size piece pending in
    sym (append_assoc (take n got) (drop n got) (flatten rest))
    ∙ ap (λ t. t ++ flatten rest) (take-append-drop n got)
    ∙ fetch_lem r.size piece pending

read_cases :
    (n : ℕ) (b : List ℕ) (r : Reader)
    → r.buffered ≡ b
    → (read n r).0 ++ remaining (read n r).2 ≡ remaining r
unfolding read
read_cases n [] r e = rw (e, read) (read_empty_lem n r.pending r e refl)
read_cases n (b ∷ bs) r e =
    rw (e, read)
      (sym (append_assoc (take n (b ∷ bs)) (drop n (b ∷ bs)) (flatten r.pending))
        ∙ ap (λ t. t ++ flatten r.pending) (take-append-drop n (b ∷ bs)))

-- What `Read` returns and what is left are what there was.
pub read-remaining : (n : ℕ) (r : Reader) → (read n r).0 ++ remaining (read n r).2 ≡ remaining r
read-remaining n r = read_cases n r.buffered r refl

pub fill-remaining :
    (n size : ℕ) (b : List ℕ) (pending : List (List ℕ))
    → (fill n size b pending).0 ++ flatten (fill n size b pending).1 ≡ b ++ flatten pending
unfolding fill
fill-remaining n size b [] = refl
fill-remaining n size b (piece ∷ pending) =
    elim (Bool-cases (ltb (length b) n && ltb (length b) size)) [
      | inr e ↦ rw e
      | inl e ↦ elim (Bool-cases (leb (length piece) (size - length b))) [
        | inl fits ↦
            rw (e, fits)
              (fill-remaining n size (b ++ piece) pending ∙ append_assoc b piece (flatten pending))
        | inr big ↦
            rw (e, big)
              (append_assoc b (take (size - length b) piece) _
                ∙ ap (λ t. b ++ t)
                    (sym (append_assoc (take (size - length b) piece) _ (flatten pending))
                      ∙ ap (λ t. t ++ flatten pending) (take-append-drop (size - length b) piece)))
      ]
    ]

peek_filled-cases :
    (n : ℕ) (r : Reader) (bytes : List ℕ) (rest : List (List ℕ))
    → (peek_filled n r bytes rest).1 ≡ none
    → (peek_filled n r bytes rest ≡ (take n bytes, none, filled r bytes rest)) × (n ≤ length bytes)
unfolding peek_filled
peek_filled-cases n r bytes rest e = ground arith

-- A successful `Peek` shows what `Discard` then takes out.
pub peek-discard :
    (n : ℕ) (r : Reader)
    → (peek n r).1 ≡ none
    → (length (peek n r).0 ≡ n) × ((peek n r).0 ++ remaining (discard n (peek n r).2) ≡ remaining r)
unfolding peek discard
peek-discard n r e =
    let (bytes, rest) = fill n r.size r.buffered r.pending in
    let (p, h) = peek_filled-cases n r bytes rest e in
    rw p (
      omega (arith, length-take n bytes),
      sym (append_assoc (take n bytes) (drop n bytes) (flatten rest))
          ∙ ap (λ t. t ++ flatten rest) (take-append-drop n bytes)
          ∙ fill-remaining n r.size r.buffered r.pending,
    )

-- A read of what stands in front of the buffer.
pub read-buffered :
    (b : ℕ) (bs rest : List ℕ) (r : Reader)
    → r.buffered ≡ (b ∷ bs) ++ rest
    → read (length (b ∷ bs)) r ≡ (b ∷ bs, none, record r { buffered = rest })
unfolding read
read-buffered b bs rest r e = rw (e, read, take-append_left, drop-append_left)

fill_enough :
    (n size : ℕ) (b : List ℕ) (pending : List (List ℕ))
    → n ≤ length b
    → fill n size b pending ≡ (b, pending)
unfolding fill
fill_enough n size b [] h = refl
fill_enough n size b (piece ∷ pending) h = rw (ltb-eq-false (length b) n h)

peek_filled_exact :
    (bs rest : List ℕ) (r : Reader)
    → r.buffered ≡ bs ++ rest
    → length bs ≤ r.size
    → peek_filled (length bs) r r.buffered r.pending ≡ (bs, none, r)
unfolding peek_filled
peek_filled_exact bs rest r e h =
    let long : length bs ≤ length r.buffered = rw e (omega (arith, length-append bs rest)) in
    let front : take (length bs) r.buffered ≡ bs = rw e (take-append_left bs rest) in ground arith

pub peek-buffered :
    (bs rest : List ℕ) (r : Reader)
    → r.buffered ≡ bs ++ rest
    → length bs ≤ r.size
    → peek (length bs) r ≡ (bs, none, r)
unfolding peek
peek-buffered bs rest r e h =
    let long : length bs ≤ length r.buffered = rw e (omega (arith, length-append bs rest)) in
    rw (fill_enough (length bs) r.size r.buffered r.pending long) (peek_filled_exact bs rest r e h)
