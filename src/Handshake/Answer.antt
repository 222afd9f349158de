-- ===== src/Handshake/Answer.antt =====
-- client.go: the loop of `negotiate` that reads the answer, and the answer that server.go writes.
pub mod Reading
pub mod RoundTrip
use webson.Common.{
  ℕ, zero, suc, ◌+◌, ◌-◌, Bool, true, false, not, ◌&&◌, ◌||◌, if◌then◌else◌, ◌==◌, bytes_eq, codes,
  List, [], ◌∷◌, ◌++◌, Option, none, some, length,
}
use webson.Errors.{Error, new_error}
use webson.Handshake.Fields.{Fields, canonical, is_lower, is_upper, is_digit}
use webson.Handshake.Server.{lower_all}
use webson.Handshake.Url.{cut_at}
use webson.Handshake.Lines.{Line, line, too_long, line_error, read_line}
use webson.Handshake.Request.{crlf, field_lines}
use webson.Reader.{Reader, remaining}

abbrev pub is_separator : ℕ → Bool
is_separator b = not (is_lower b || is_upper b || is_digit b || b == 95)

-- `strings.Title`, on ASCII letters: a capital at the start of each word.
unfoldable pub title : Bool → List ℕ → List ℕ
title start [] = []
title start (b ∷ bs) = (if start && is_lower b then b - 32 else b) ∷ title (is_separator b) bs

unfoldable pub trim_left : List ℕ → List ℕ
trim_left [] = []
trim_left (b ∷ bs) = if b == 32 then trim_left bs else b ∷ bs

abbrev pub cons_trimmed : ℕ → List ℕ → List ℕ
cons_trimmed b [] = if b == 32 then [] else b ∷ []
cons_trimmed b (c ∷ bs) = b ∷ c ∷ bs

unfoldable pub trim_right : List ℕ → List ℕ
trim_right [] = []
trim_right (b ∷ bs) = cons_trimmed b (trim_right bs)

-- `strings.Trim(s, " ")`.
unfoldable pub trim : List ℕ → List ℕ
unfolding trim_left trim_right
trim s = trim_right (trim_left s)

abbrev pub malformed_response : Error
malformed_response = new_error "malformed response"

-- The status line. A line with one space only is not looked at any further.
unfoldable pub check_status : List ℕ → Option Error
unfolding cut_at
check_status row = elim (cut_at (codes " ") row) [
  | none ↦ some malformed_response
  | some (version, left) ↦ elim (cut_at (codes " ") left) [
    | none ↦ none
    | some (code, reason) ↦
        if not (bytes_eq code (codes "101")) || not (bytes_eq reason (codes "Switching Protocols"))
        then some (new_error "ws not supported")
        else none
  ]
]

-- A header line is added to the fields; one without a colon is passed over.
abbrev pub split_field : Option (List ℕ × List ℕ) → Fields → Fields
split_field none fs = fs
split_field (some (key, v)) fs = fs ++ ((canonical (title true (lower_all key)), trim v) ∷ [])

unfoldable pub add_line : List ℕ → Fields → Fields
unfolding title trim cut_at
add_line row fs = split_field (cut_at (codes ":") row) fs

-- How the loop ends; `answer_fuel` is no Go value.
pub data Answer : Type 0 where
  answered : Fields → Reader → Answer
  answer_error : Error → Answer
  answer_fuel : Answer

abbrev pub next_line : (Bool → Fields → Reader → Answer) → Bool → Fields → Line → Answer
next_line rest responded fs too_long = answer_error malformed_response
next_line rest responded fs (line_error e) = answer_error e
next_line rest responded fs (line [] r) = answered fs r
next_line rest true fs (line (b ∷ bs) r) = rest true (add_line (b ∷ bs) fs) r
next_line rest false fs (line (b ∷ bs) r) = elim (check_status (b ∷ bs)) [
  | some e ↦ answer_error e
  | none ↦ rest true fs r
]

unfoldable pub read_lines : ℕ → Bool → Fields → Reader → Answer
unfolding check_status add_line
read_lines zero responded fs r = answer_fuel
read_lines (suc fuel) responded fs r = next_line (read_lines fuel) responded fs (read_line r)

-- Each line takes a byte at least.
unfoldable pub read_answer : Reader → Answer
unfolding read_lines
read_answer r = read_lines (length (remaining r) + 1) false [] r

-- server.go: the bytes that `TakeOver` writes.
unfoldable pub answer_bytes : Fields → List ℕ
answer_bytes fs =
    codes "HTTP/1.1 101 Switching Protocols" ++ (crlf ++ (field_lines (codes ": ") fs ++ crlf))
