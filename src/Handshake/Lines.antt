-- ===== src/Handshake/Lines.antt =====
-- bufio.Reader's `ReadLine`, with which `negotiate` reads the answer.
pub mod Laws
pub mod Taking
use webson.Common.{
  ℕ, ◌-◌, if◌then◌else◌, leb, ◌==◌, List, [], ◌∷◌, ◌++◌, Option, none, some, length, take, drop,
}
use webson.Errors.{Error}
use webson.Reader.{Reader}

-- The bytes in front of the first newline, and those behind it.
unfoldable pub cut_newline : List ℕ → Option (List ℕ × List ℕ)
cut_newline [] = none
cut_newline (b ∷ bs) =
    let rest = cut_newline bs in
    if b == 10
    then some ([], bs)
    else elim rest [ none ↦ none | some (before, after) ↦ some (b ∷ before, after) ]

-- A line, what is buffered behind it, and the network; a buffer without a newline; or all that came
-- before the network ended.
pub data Slice : Type 0 where
  found : List ℕ → List ℕ → List (List ℕ) → Slice
  full : Slice
  ended : List ℕ → Slice

abbrev pub found_or : List (List ℕ) → Slice → Option (List ℕ × List ℕ) → Slice
found_or pending other none = other
found_or pending other (some (before, after)) = found before after pending

-- `ReadSlice`: look for a newline, and read on while there is room.
unfoldable pub read_slice : ℕ → List ℕ → List (List ℕ) → Slice
unfolding cut_newline
read_slice size buffered [] =
    found_or [] (if leb size (length buffered) then full else ended buffered) (cut_newline buffered)
read_slice size buffered (piece ∷ pending) =
    let room = size - length buffered in
    let more = read_slice size (buffered ++ piece) pending in
    let part =
      found_or (drop room piece ∷ pending) full (cut_newline (buffered ++ take room piece)) in
    found_or (piece ∷ pending)
      (if leb size (length buffered) then full else if leb (length piece) room then more else part)
      (cut_newline buffered)

unfoldable pub drop_return : List ℕ → List ℕ
drop_return [] = []
drop_return (b ∷ []) = if b == 13 then [] else b ∷ []
drop_return (b ∷ c ∷ bs) = b ∷ drop_return (c ∷ bs)

pub data Line : Type 0 where
  line : List ℕ → Reader → Line
  too_long : Line
  line_error : Error → Line

-- A last line needs no newline.
abbrev pub line_of : Reader → Slice → Line
line_of r (found before after pending) =
    line (drop_return before) (record r { buffered = after; pending = pending })
line_of r full = too_long
line_of r (ended []) = line_error r.ending
line_of r (ended (b ∷ bs)) = line (b ∷ bs) (record r { buffered = []; pending = [] })

unfoldable pub read_line : Reader → Line
unfolding read_slice drop_return
read_line r = line_of r (read_slice r.size r.buffered r.pending)
