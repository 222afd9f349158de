-- ===== src/Message/Mask.antt =====
-- message.go: masking. The key is the four bytes of the frame, or the private mask mixed with them.
use webson.Common.{
  ℕ, zero, suc, ◌%◌, ◌<◌, ◌≡◌, refl, ap, ap₂, List, [], ◌∷◌, Option, none, some, length, get_or,
  All, arith, bit_xor,
}
use webson.Common.Bits.{xor_twice, bit_xor-lt}
use webson.Common.Words.{IsByte}
use webson.Message.{Message}

-- `for i, b := range extraMask { m.mask[i] = b ^ mask[i%4] }`, from index `i` on.
unfoldable pub mix_mask : List ℕ → ℕ → List ℕ → List ℕ
mix_mask mask i [] = []
mix_mask mask i (b ∷ extra) = bit_xor b (get_or mask (i % 4) 0) ∷ mix_mask mask (suc i) extra

unfoldable pub mask_key : Option (List ℕ) → List ℕ → List ℕ
mask_key none mask = mask
mask_key (some extra) mask = mix_mask mask 0 extra

unfoldable pub set_mask : Message → List ℕ → Message
set_mask m mask = record m { mask = mask_key m.config.extra_mask mask }

-- `payload[i] ^= key[i%maskSize]`, from index `i` on.
unfoldable pub mask_from : List ℕ → ℕ → List ℕ → List ℕ
mask_from key i [] = []
mask_from key i (b ∷ payload) =
    bit_xor b (get_or key (i % length key) 0) ∷ mask_from key (suc i) payload

unfoldable pub mask_payload : Message → List ℕ → List ℕ
mask_payload m payload = mask_from m.mask 0 payload

-- Masking twice with the same key gives the payload back.
pub mask_from_twice :
    (key : List ℕ) (i : ℕ) (payload : List ℕ) → mask_from key i (mask_from key i payload) ≡ payload
unfolding mask_from
mask_from_twice key i [] = refl
mask_from_twice key i (b ∷ payload) =
    ap₂ ◌∷◌ (xor_twice b (get_or key (i % length key) 0)) (mask_from_twice key (suc i) payload)

pub length-mask_from :
    (key : List ℕ) (i : ℕ) (payload : List ℕ) → length (mask_from key i payload) ≡ length payload
unfolding mask_from
length-mask_from key i [] = refl
length-mask_from key i (b ∷ payload) = ap suc (length-mask_from key (suc i) payload)

pub get_or-IsByte : (key : List ℕ) (i : ℕ) → All IsByte key → get_or key i 0 < 256
get_or-IsByte [] i h = omega arith
get_or-IsByte (k ∷ key) zero (h, hs) = h
get_or-IsByte (k ∷ key) (suc i) (h, hs) = get_or-IsByte key i hs

pub mask_from-IsByte :
    (key : List ℕ) (i : ℕ) (payload : List ℕ)
    → All IsByte key
    → All IsByte payload
    → All IsByte (mask_from key i payload)
unfolding mask_from
mask_from-IsByte key i [] hk h = tt
mask_from-IsByte key i (b ∷ payload) hk (h, hs) = (
  bit_xor-lt 8 b _ h (get_or-IsByte key (i % length key) hk),
  mask_from-IsByte key (suc i) payload hk hs,
)

mix_mask-IsByte :
    (mask : List ℕ) (i : ℕ) (extra : List ℕ)
    → All IsByte mask
    → All IsByte extra
    → All IsByte (mix_mask mask i extra)
unfolding mix_mask
mix_mask-IsByte mask i [] hm h = tt
mix_mask-IsByte mask i (b ∷ extra) hm (h, hs) =
    (bit_xor-lt 8 b _ h (get_or-IsByte mask (i % 4) hm), mix_mask-IsByte mask (suc i) extra hm hs)
