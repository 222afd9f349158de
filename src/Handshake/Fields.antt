-- ===== src/Handshake/Fields.antt =====
-- net/http's Header, as far as the handshake uses it: fields in the order in which they were added.
pub mod Order
use webson.Common.{
  ℕ, ◌+◌, ◌-◌, Bool, true, not, ◌&&◌, ◌||◌, if◌then◌else◌, leb, ◌==◌, bytes_eq, List, [], ◌∷◌,
}
use webson.Handshake.{Header}

abbrev pub Fields : Type 0
Fields = List (List ℕ × List ℕ)

abbrev pub is_lower : ℕ → Bool
is_lower b = leb 97 b && leb b 122

abbrev pub is_upper : ℕ → Bool
is_upper b = leb 65 b && leb b 90

abbrev pub is_digit : ℕ → Bool
is_digit b = leb 48 b && leb b 57

-- The punctuation of a token in RFC 7230.
abbrev pub is_mark : ℕ → Bool
is_mark b =
    (b == 33 || leb 35 b && leb b 39)
    || (b == 42 || b == 43 || b == 45 || b == 46)
    || (leb 94 b && leb b 96 || b == 124 || b == 126)

unfoldable pub is_token : List ℕ → Bool
is_token [] = true
is_token (b ∷ bs) = (is_lower b || is_upper b || is_digit b || is_mark b) && is_token bs

-- A capital at the start and behind each dash.
unfoldable pub dashed : Bool → List ℕ → List ℕ
dashed up [] = []
dashed up (b ∷ bs) =
    (if up && is_lower b then b - 32 else if not up && is_upper b then b + 32 else b)
    ∷ dashed (b == 45) bs

-- `textproto.CanonicalMIMEHeaderKey`: a key with another byte is left as it is.
unfoldable pub canonical : List ℕ → List ℕ
unfolding is_token dashed
canonical key = if is_token key then dashed true key else key

unfoldable pub values_of : List ℕ → Fields → List (List ℕ)
values_of key [] = []
values_of key ((k, v) ∷ fs) = if bytes_eq k key then v ∷ values_of key fs else values_of key fs

abbrev pub first_of : List (List ℕ) → List ℕ
first_of [] = []
first_of (v ∷ vs) = v

-- `Get` and `Values` of what `Add` has put in.
unfoldable pub header_of : Fields → Header
unfolding canonical values_of
header_of fs = record {
  get = λ key. first_of (values_of (canonical key) fs);
  values = λ key. values_of (canonical key) fs;
}
