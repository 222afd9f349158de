-- ===== src/Handshake/Answer/RoundTrip.antt =====
-- The answer that `TakeOver` writes, read by the loop of `negotiate`.
use webson.Common.{
  ℕ, zero, suc, ◌+◌, ◌≤◌, ◌<◌, ◌≡◌, refl, sym, ap, ◌∙◌, Bool, true, false, not, ◌&&◌, ◌==◌,
  bytes_eq, codes, List, [], ◌∷◌, ◌++◌, some, length, drop, All, length-append, take-append_left,
  arith,
}
use mathlib.Core.List.{append_assoc, append-nil}
use webson.Reader.{Reader, remaining}
use webson.Handshake.Fields.{Fields, canonical}
use webson.Handshake.Server.{lower_all, starts_with}
use webson.Handshake.Url.{cut_at, index}
use webson.Handshake.Lines.{line}
use webson.Handshake.Lines.Laws.{no_break, read_line-found}
use webson.Handshake.Request.{crlf, field_lines}
use webson.Handshake.Answer.{
  Answer, answered, title, trim, trim_left, split_field, next_line, check_status, add_line,
  read_lines, read_answer, answer_bytes,
}

abbrev pub no_colon : List ℕ → Bool
no_colon [] = true
no_colon (b ∷ bs) = not (b == 58) && no_colon bs

-- A header field that the answer can carry: a key in its canonical form, a value without spaces
-- around it, and a line that the buffer has room for.
pub record IsPlain (size : ℕ) (field : List ℕ × List ℕ) : Type 0 where
  pub key_some : bytes_eq field.0 [] ≡ false
  pub key_colon : no_colon field.0 ≡ true
  pub key_break : no_break field.0 ≡ true
  pub key_canonical : canonical (title true (lower_all field.0)) ≡ field.0
  pub value_break : no_break field.1 ≡ true
  pub value_trim : trim field.1 ≡ field.1
  pub room : length field.0 + length field.1 + 4 ≤ size

index_colon :
    (k t : List ℕ) → no_colon k ≡ true → index (codes ":") (k ++ (58 ∷ t)) ≡ some (length k)
unfolding index starts_with
index_colon [] t h = refl
index_colon (b ∷ k) t h =
    let ih = index_colon k t (ground arith) in
    let no : (58 == b) ≡ false = ground arith in rw (no, ih)

drop_colon : (k t : List ℕ) → drop (length k + 1) (k ++ (58 ∷ t)) ≡ t
drop_colon [] t = refl
drop_colon (b ∷ k) t =
    let n : suc (length k) + 1 ≡ suc (length k + 1) = omega arith in
    ap (λ i. drop i (b ∷ (k ++ (58 ∷ t)))) n ∙ drop_colon k t

cut_colon :
    (k t : List ℕ)
    → bytes_eq k [] ≡ false
    → no_colon k ≡ true
    → cut_at (codes ":") (k ++ (58 ∷ t)) ≡ some (k, t)
unfolding cut_at
cut_colon [] t some_key h = absurd cc
cut_colon (b ∷ k) t some_key h =
    rw (index_colon (b ∷ k) t h, cut_at, take-append_left (b ∷ k) (58 ∷ t), drop_colon (b ∷ k) t)

trim_space : (v : List ℕ) → trim (32 ∷ v) ≡ trim v
unfolding trim trim_left
trim_space v = refl

add_line-plain :
    (size : ℕ) (k v : List ℕ) (fs : Fields)
    → IsPlain size (k, v)
    → add_line (k ++ (58 ∷ 32 ∷ v)) fs ≡ fs ++ ((k, v) ∷ [])
unfolding add_line
add_line-plain size k v fs p =
    let spaced : trim (32 ∷ v) ≡ v = trim_space v ∙ p.value_trim in
    ap (λ x. split_field x fs) (cut_colon k (32 ∷ v) p.key_some p.key_colon)
    ∙ rw (p.key_canonical, spaced)

append-no_break : (s t : List ℕ) → no_break s ≡ true → no_break t ≡ true → no_break (s ++ t) ≡ true
append-no_break [] t h k = k
append-no_break (b ∷ s) t h k = let ih = append-no_break s t (ground arith) k in ground arith

-- The bytes of one field and of the rest.
field_line :
    (k v : List ℕ) (fs : Fields) (rest : List ℕ)
    → field_lines (codes ": ") ((k, v) ∷ fs) ++ rest
      ≡ (k ++ (58 ∷ 32 ∷ v)) ++ (13 ∷ 10 ∷ (field_lines (codes ": ") fs ++ rest))
unfolding field_lines
field_line k v fs rest = append_assoc (k ++ (58 ∷ 32 ∷ v)) _ rest

abbrev pub IsAnswered : Answer → ℕ → Fields → List ℕ → Type 0
IsAnswered answer size fs rest =
    (r : Reader) × (answer ≡ answered fs r) × (remaining r ≡ rest) × (r.size ≡ size)

next_row :
    (rest : Bool → Fields → Reader → Answer) (k t : List ℕ) (fs : Fields) (r : Reader)
    → bytes_eq k [] ≡ false
    → next_line rest true fs (line (k ++ (58 ∷ t)) r) ≡ rest true (add_line (k ++ (58 ∷ t)) fs) r
next_row rest [] t fs r h = absurd cc
next_row rest (b ∷ k) t fs r h = refl

no_lines : (rest : List ℕ) → field_lines (codes ": ") [] ++ (13 ∷ 10 ∷ rest) ≡ 13 ∷ 10 ∷ rest
unfolding field_lines
no_lines rest = refl

-- The loop over the header lines, from any point on.
read_fields :
    (fuel : ℕ) (fs got : Fields) (rest : List ℕ) (r : Reader)
    → All (IsPlain r.size) fs
    → 2 ≤ r.size
    → length fs < fuel
    → remaining r ≡ field_lines (codes ": ") fs ++ (13 ∷ 10 ∷ rest)
    → IsAnswered (read_lines fuel true got r) r.size (got ++ fs) rest
unfolding read_lines
read_fields zero fs got rest r plain two fuel e = absurd (omega arith)
read_fields (suc n) [] got rest r plain two fuel e =
    let (r', q, k, z) = read_line-found r [] rest refl two (e ∙ no_lines rest) in
    (
      r',
      ap (next_line (read_lines n) true got) q ∙ ap (λ t. answered t r') (sym (append-nil got)),
      k,
      z,
    )
read_fields (suc n) ((k, v) ∷ fs) got rest r (p, plain) two fuel e =
    let row = k ++ (58 ∷ 32 ∷ v) in
    let row_break = append-no_break k (58 ∷ 32 ∷ v) p.key_break p.value_break in
    let row_room : length row + 2 ≤ r.size = omega (arith, length-append k (58 ∷ 32 ∷ v), p.room) in
    let (r', q, k', z) =
      read_line-found r row (field_lines (codes ": ") fs ++ (13 ∷ 10 ∷ rest)) row_break row_room
        (e ∙ field_line k v fs _) in
    let (r'', q', k'', z') =
      read_fields n fs (got ++ ((k, v) ∷ [])) rest r' (rw z plain) (rw z two) (omega arith) k' in
    (
      r'',
      ap (next_line (read_lines n) true got) q
          ∙ next_row (read_lines n) k (32 ∷ v) got r' p.key_some
          ∙ ap (λ t. read_lines n true t r') (add_line-plain r.size k v got p)
          ∙ q'
          ∙ ap (λ t. answered t r'') (append_assoc got _ fs),
      k'',
      z' ∙ z,
    )

length-fields : (fs : Fields) → length fs ≤ length (field_lines (codes ": ") fs)
unfolding field_lines
length-fields [] = omega arith
length-fields ((k, v) ∷ fs) =
    let ih = length-fields fs in
    omega (arith, length-append (k ++ (58 ∷ 32 ∷ v)) (13 ∷ 10 ∷ field_lines (codes ": ") fs))

abbrev status_line : List ℕ
status_line = codes "HTTP/1.1 101 Switching Protocols"

answer_split :
    (fs : Fields) (rest : List ℕ)
    → answer_bytes fs ++ rest
      ≡ status_line ++ (13 ∷ 10 ∷ (field_lines (codes ": ") fs ++ (13 ∷ 10 ∷ rest)))
unfolding answer_bytes
answer_split fs rest =
    ap (λ t. status_line ++ (13 ∷ 10 ∷ t)) (append_assoc (field_lines (codes ": ") fs) crlf rest)

status_row :
    (rest : Bool → Fields → Reader → Answer) (r : Reader)
    → next_line rest false [] (line status_line r) ≡ rest true [] r
unfolding check_status cut_at index starts_with
status_row rest r = refl

length-answer : (fs : Fields) (rest : List ℕ) → length fs + 1 ≤ length (answer_bytes fs ++ rest)
length-answer fs rest =
    let a = length-fields fs in
    let b = length-append (field_lines (codes ": ") fs) (13 ∷ 10 ∷ rest) in
    rw (answer_split fs rest) (omega arith)

-- The answer that TakeOver writes, for header fields with a canonical key, no space around the
-- value and a line that the reader's buffer has room for, and a buffer of 34 bytes at least,
-- however the network cuts it into pieces and with any bytes behind: the loop of negotiate ends
-- with exactly those fields, in order, and with exactly those bytes left to read.
pub read_answer-answer_bytes :
    (fs : Fields) (rest : List ℕ) (r : Reader)
    → All (IsPlain r.size) fs
    → 34 ≤ r.size
    → remaining r ≡ answer_bytes fs ++ rest
    → IsAnswered (read_answer r) r.size fs rest
unfolding read_answer read_lines
read_answer-answer_bytes fs rest r plain room e =
    let (r', q, k, z) =
      read_line-found r status_line (field_lines (codes ": ") fs ++ (13 ∷ 10 ∷ rest)) refl room
        (e ∙ answer_split fs rest) in
    let fuel : ℕ = length (remaining r) in
    let enough : length fs < fuel = rw e (omega (arith, length-answer fs rest)) in
    let (r'', q', k', z') =
      read_fields fuel fs [] rest r' (rw z plain) (rw z (omega arith)) enough k in
    let n : fuel + 1 ≡ suc fuel = omega arith in
    (
      r'',
      ap (λ m. read_lines m false [] r) n
          ∙ ap (next_line (read_lines fuel) false []) q
          ∙ status_row (read_lines fuel) r'
          ∙ q',
      k',
      z' ∙ z,
    )
