-- ===== src/Handshake/Request.antt =====
-- client.go: the request that `negotiate` writes, and the base64 of its credentials.
use webson.Common.{
  ℕ, ◌+◌, ◌-◌, ◌*◌, ◌/◌, ◌%◌, if◌then◌else◌, ltb, ◌==◌, bytes_eq, codes, List, [], ◌∷◌, ◌++◌,
}
use webson.Config.{Config}
use webson.Handshake.{max_streams_key, extensions_key, deflate_extension}
use webson.Handshake.Decimal.{itoa}
use webson.Handshake.Url.{SimpleUrl}
use webson.Handshake.Fields.{Fields}

abbrev pub crlf : List ℕ
crlf = 13 ∷ 10 ∷ []

-- The alphabet of base64.StdEncoding.
unfoldable pub base64_digit : ℕ → ℕ
base64_digit n =
    if ltb n 26
    then 65 + n
    else if ltb n 52
    then 71 + n
    else if ltb n 62
    then n - 4
    else if n == 62
    then 43
    else 47

-- Three bytes are four digits; the last ones are padded.
unfoldable pub base64 : List ℕ → List ℕ
unfolding base64_digit
base64 [] = []
base64 (a ∷ []) = base64_digit (a / 4) ∷ base64_digit (a % 4 * 16) ∷ 61 ∷ 61 ∷ []
base64 (a ∷ b ∷ []) =
    base64_digit (a / 4) ∷ base64_digit (a % 4 * 16 + b / 16) ∷ base64_digit (b % 16 * 4) ∷ 61 ∷ []
base64 (a ∷ b ∷ c ∷ bs) =
    base64_digit (a / 4)
    ∷ base64_digit (a % 4 * 16 + b / 16)
    ∷ base64_digit (b % 16 * 4 + c / 64)
    ∷ base64_digit (c % 64)
    ∷ base64 bs

unfoldable pub format_request_base : SimpleUrl → List ℕ
unfolding base64
format_request_base s =
    codes "GET "
    ++ (s.path ++ (codes " HTTP/1.1" ++ (crlf ++ (codes "Host: " ++ (s.host_port ++ crlf)))))
    ++ (if bytes_eq s.user_password []
        then []
        else codes "Authorization: Basic " ++ (base64 s.user_password ++ crlf))

-- `headers[k] = v`.
unfoldable pub set_field : List ℕ → List ℕ → Fields → Fields
set_field k v [] = (k, v) ∷ []
set_field k v ((j, w) ∷ fs) = if bytes_eq j k then (k, v) ∷ fs else (j, w) ∷ set_field k v fs

unfoldable pub set_fields : Fields → Fields → Fields
unfolding set_field
set_fields [] fs = fs
set_fields ((k, v) ∷ more) fs = set_fields more (set_field k v fs)

abbrev pub base_fields : List ℕ → Fields
base_fields challenge =
    (codes "Upgrade", codes "websocket")
    ∷ (codes "Connection", codes "Upgrade")
    ∷ (codes "Sec-Websocket-Version", codes "13")
    ∷ (codes "Sec-Websocket-Key", challenge)
    ∷ []

abbrev pub with_compress : Config → Fields → Fields
with_compress c fs = if c.enable_compress then set_field extensions_key deflate_extension fs else fs

abbrev pub with_streams : Config → Fields → Fields
with_streams c fs =
    if c.enable_streams then set_field max_streams_key (itoa c.max_streams) fs else fs

-- The header fields, in the order of one iteration over the map. `extra` are the `ExtraHeaders`.
unfoldable pub request_fields : List ℕ → Fields → Config → Fields
unfolding set_fields set_field
request_fields challenge extra c =
    with_streams c (with_compress c (set_fields extra (base_fields challenge)))

unfoldable pub field_lines : List ℕ → Fields → List ℕ
field_lines colon [] = []
field_lines colon ((k, v) ∷ fs) = (k ++ (colon ++ v)) ++ (crlf ++ field_lines colon fs)

-- The bytes of the request.
unfoldable pub request_bytes : SimpleUrl → Fields → List ℕ
unfolding format_request_base field_lines
request_bytes url fs = format_request_base url ++ (field_lines (codes ":") fs ++ crlf)
