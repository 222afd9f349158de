-- ===== src/Handshake/Answer/Reading.antt =====
-- The end of the loop over the answer.
use webson.Common.{
  ℕ, zero, suc, ◌+◌, ◌<◌, ◌≡◌, refl, Bool, true, false, List, [], ◌∷◌, Option, none, some, length,
  arith,
}
use webson.Errors.{Error}
use webson.Reader.{Reader, remaining}
use webson.Handshake.Fields.{Fields}
use webson.Handshake.Lines.{Line, line, too_long, line_error, read_line}
use webson.Handshake.Lines.Taking.{read_line-left}
use webson.Handshake.Answer.{
  Answer, answered, answer_error, answer_fuel, next_line, check_status, add_line, read_lines,
  read_answer,
}

-- The answer is not the one that stands for fuel that ran out.
abbrev pub is_over : Answer → Bool
is_over (answered fs r) = true
is_over (answer_error e) = true
is_over answer_fuel = false

after_status :
    (rest : Bool → Fields → Reader → Answer) (fs : Fields) (row : List ℕ) (r : Reader)
    (o : Option Error)
    → is_over (rest true fs r) ≡ true
    → is_over (elim o [ some e ↦ answer_error e | none ↦ rest true fs r ]) ≡ true
after_status rest fs row r none h = h
after_status rest fs row r (some e) h = refl

next_line-is_over :
    (rest : Bool → Fields → Reader → Answer) (responded : Bool) (fs : Fields) (l : Line)
    → ((fs' : Fields) (bs : List ℕ) (r : Reader) → l ≡ line bs r → is_over (rest true fs' r) ≡ true)
    → is_over (next_line rest responded fs l) ≡ true
next_line-is_over rest responded fs too_long h = refl
next_line-is_over rest responded fs (line_error e) h = refl
next_line-is_over rest responded fs (line [] r) h = refl
next_line-is_over rest true fs (line (b ∷ bs) r) h = h (add_line (b ∷ bs) fs) (b ∷ bs) r refl
next_line-is_over rest false fs (line (b ∷ bs) r) h =
    after_status rest fs (b ∷ bs) r (check_status (b ∷ bs)) (h fs (b ∷ bs) r refl)

read_lines-is_over :
    (fuel : ℕ) (responded : Bool) (fs : Fields) (r : Reader)
    → length (remaining r) < fuel
    → is_over (read_lines fuel responded fs r) ≡ true
unfolding read_lines
read_lines-is_over zero responded fs r h = absurd (omega arith)
read_lines-is_over (suc fuel) responded fs r h =
    next_line-is_over (read_lines fuel) responded fs (read_line r) (λ fs' bs r' e.
      let l = read_line-left r r' bs e in read_lines-is_over fuel true fs' r' (omega arith))

-- Whatever the network delivers, in whatever pieces, before it ends, the loop of negotiate over the
-- answer ends within one round for each byte and one more.
pub read_answer-is_over : (r : Reader) → is_over (read_answer r) ≡ true
unfolding read_answer
read_answer-is_over r = read_lines-is_over (length (remaining r) + 1) false [] r (omega arith)
