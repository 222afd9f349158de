-- ===== src/Message/Close.antt =====
-- message.go: close codes on the wire.
use webson.Common.{ℕ, ◌<◌, ◌%◌, ◌^◌, ◌≡◌, List, [], ◌∷◌, ◌++◌, Option, none, some, All, arith}
use webson.Common.Words.{
  IsByte, put_uint16, big_endian, big_endian-put_uint16, big_endian-lt, put_uint16-big_endian,
}
use webson.Message.{CloseCode}

unfoldable pub to_bytes : CloseCode → List ℕ
to_bytes c = put_uint16 (c.code % 2 ^ 16) ++ c.reason

-- A close frame with fewer than two bytes has no code.
unfoldable pub parse_close_code : List ℕ → Option CloseCode
parse_close_code [] = none
parse_close_code (a ∷ []) = none
parse_close_code (a ∷ b ∷ reason) =
    some (record { code = big_endian (a ∷ b ∷ []); reason = reason })

-- A close code below 65536 and its reason come back from their bytes.
pub parse_close_code-to_bytes :
    (c : CloseCode) → c.code < 2 ^ 16 → parse_close_code (to_bytes c) ≡ some c
unfolding parse_close_code to_bytes put_uint16
parse_close_code-to_bytes c h = ground (arith, big_endian-put_uint16 (c.code % 2 ^ 16))

-- For bytes that ParseCloseCode accepts, printing its result gives them back.
pub to_bytes-parse_close_code :
    (raw : List ℕ) (c : CloseCode)
    → All IsByte raw
    → parse_close_code raw ≡ some c
    → to_bytes c ≡ raw
unfolding parse_close_code to_bytes
to_bytes-parse_close_code [] c h e = cc
to_bytes-parse_close_code (a ∷ []) c h e = cc
to_bytes-parse_close_code (a ∷ b ∷ reason) c (ha, (hb, hs)) e =
    ground (arith, put_uint16-big_endian a b ha hb, big_endian-lt a b ha hb)
