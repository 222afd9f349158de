-- ===== src/Common/Words.antt =====
-- encoding/binary's big-endian words, over lists of bytes.
use Prim.Native.Nat.{ℕ, ◌+◌, ◌*◌, ◌/◌, ◌%◌, ◌^◌, ◌<◌}
use mathlib.Core.Path.{◌≡◌}
use mathlib.Core.List.{List, [], ◌∷◌}
use native.Mathlib.Omega.{arith}
use webson.Common.Lists.{All}

abbrev pub IsByte : ℕ → Type 0
IsByte b = b < 256

-- `binary.BigEndian.PutUint16`.
unfoldable pub put_uint16 : ℕ → List ℕ
put_uint16 v = (v / 256 % 256) ∷ (v % 256) ∷ []

-- `binary.BigEndian.PutUint64`.
unfoldable pub put_uint64 : ℕ → List ℕ
put_uint64 v =
    (v / 2 ^ 56 % 256)
    ∷ (v / 2 ^ 48 % 256)
    ∷ (v / 2 ^ 40 % 256)
    ∷ (v / 2 ^ 32 % 256)
    ∷ (v / 2 ^ 24 % 256)
    ∷ (v / 2 ^ 16 % 256)
    ∷ (v / 2 ^ 8 % 256)
    ∷ (v % 256)
    ∷ []

-- `binary.BigEndian.Uint16` and `Uint64`: the value of the bytes, the first one highest.
abbrev from_bytes : ℕ → List ℕ → ℕ
from_bytes acc [] = acc
from_bytes acc (b ∷ bs) = from_bytes (acc * 256 + b) bs

unfoldable pub big_endian : List ℕ → ℕ
big_endian bs = from_bytes 0 bs

pub big_endian-put_uint16 : (v : ℕ) → v < 2 ^ 16 → big_endian (put_uint16 v) ≡ v
unfolding big_endian put_uint16
big_endian-put_uint16 v h = omega arith

pub big_endian-put_uint64 : (v : ℕ) → v < 2 ^ 64 → big_endian (put_uint64 v) ≡ v
unfolding big_endian put_uint64
big_endian-put_uint64 v h = omega arith

pub put_uint16-IsByte : (v : ℕ) → All IsByte (put_uint16 v)
unfolding put_uint16
put_uint16-IsByte v = omega arith

pub put_uint64-IsByte : (v : ℕ) → All IsByte (put_uint64 v)
unfolding put_uint64
put_uint64-IsByte v = omega arith

pub big_endian-lt : (a b : ℕ) → a < 256 → b < 256 → big_endian (a ∷ b ∷ []) < 2 ^ 16
unfolding big_endian
big_endian-lt a b h k = omega arith

pub put_uint16-big_endian :
    (a b : ℕ) → a < 256 → b < 256 → put_uint16 (big_endian (a ∷ b ∷ [])) ≡ a ∷ b ∷ []
unfolding big_endian put_uint16
put_uint16-big_endian a b h k = ground arith
