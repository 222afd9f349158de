-- ===== src/Handshake/Server.antt =====
-- server.go: `TakeOver`, from the request to the connection. The response writer is a parameter:
-- whether it can be hijacked, whether that works, and the error of writing the answer.
use webson.Common.{
  ℕ, ◌+◌, Bool, true, false, not, ◌&&◌, ◌||◌, if◌then◌else◌, ltb, leb, ◌==◌, bytes_eq, codes, List,
  [], ◌∷◌, ◌++◌, Option, none, some, length,
}
use webson.Errors.{Error, new_error, Result, ok, err}
use webson.Config.{Config, setup, default_compress_level}
use webson.Connection.{Connection}
use webson.Handshake.{
  Header, max_streams_key, extensions_key, accept_key, deflate_extension, magic_digest,
  new_connection,
}
use webson.Handshake.Decimal.{itoa, atoi}

pub record Request : Type 0 where
  pub method : List ℕ
  pub proto_major : ℕ
  pub proto_minor : ℕ
  pub header : Header

unfoldable pub proto_at_least : ℕ → ℕ → Request → Bool
proto_at_least major minor r =
    ltb major r.proto_major || (r.proto_major == major && leb minor r.proto_minor)

abbrev pub lower : ℕ → ℕ
lower b = if leb 65 b && leb b 90 then b + 32 else b

-- The small letters of a text; the Kelvin sign and the long s fold to k and s.
unfoldable pub folded : List ℕ → List ℕ
folded [] = []
folded (a ∷ []) = lower a ∷ []
folded (a ∷ b ∷ []) = if a == 197 && b == 191 then 115 ∷ [] else lower a ∷ lower b ∷ []
folded (a ∷ b ∷ c ∷ s) =
    let rest = folded (b ∷ c ∷ s) in
    let rest2 = folded (c ∷ s) in
    let rest3 = folded s in
    if a == 197 && b == 191
    then 115 ∷ rest2
    else if a == 226 && b == 132 && c == 170
    then 107 ∷ rest3
    else lower a ∷ rest

-- strings.EqualFold against a text of small ASCII letters.
unfoldable pub equal_fold : List ℕ → List ℕ → Bool
unfolding folded
equal_fold s t = bytes_eq (folded s) t

-- The order of Go strings.
unfoldable pub text_lt : List ℕ → List ℕ → Bool
text_lt s [] = false
text_lt [] (b ∷ t) = true
text_lt (a ∷ s) (b ∷ t) = ltb a b || (a == b && text_lt s t)

-- The guards at the start of `TakeOver`, with the HTTP status that is sent.
unfoldable pub check_request : Request → Option (ℕ × Error)
unfolding proto_at_least equal_fold text_lt
check_request r =
    if not (bytes_eq r.method (codes "GET"))
    then some (405, new_error "method is not GET")
    else if not (proto_at_least 1 1 r)
    then some (400, new_error "http version too low")
    else if not (equal_fold (r.header.get (codes "Connection")) (codes "upgrade"))
    then some (426, new_error "connection is not upgrade")
    else if not (equal_fold (r.header.get (codes "Upgrade")) (codes "websocket"))
    then some (400, new_error "upgrade is not websocket")
    else if text_lt (r.header.get (codes "Sec-Websocket-Version")) (codes "13")
    then some (400, new_error "websocket version too low")
    else if ltb (length (r.header.get (codes "Sec-Websocket-Key"))) 24
    then some (400, new_error "websocket key is invalid")
    else none

-- Streams: whether they are on, how many, and the answer's header field.
unfoldable pub server_streams : ℕ → List ℕ → Result (Bool × ℕ × Option (List ℕ))
server_streams limit want =
    if limit == 0 || bytes_eq want [] then ok (false, limit, none) else elim (atoi want) [
      | none ↦ err (new_error "invalid max streams")
      | some (negative, n) ↦
          if negative || n == 0
          then err (new_error "invalid max streams")
          else (let agreed = if ltb n limit then n else limit in
              ok (true, agreed, some (itoa agreed)))
    ]

-- `strings.Contains` and `strings.Join` with a space.
unfoldable pub starts_with : List ℕ → List ℕ → Bool
starts_with [] s = true
starts_with (p ∷ ps) [] = false
starts_with (p ∷ ps) (b ∷ s) = (p == b) && starts_with ps s

unfoldable pub contains : List ℕ → List ℕ → Bool
unfolding starts_with
contains part [] = starts_with part []
contains part (b ∷ s) = starts_with part (b ∷ s) || contains part s

unfoldable pub join : List (List ℕ) → List ℕ
join [] = []
join (s ∷ []) = s
join (s ∷ t ∷ ts) = s ++ (32 ∷ join (t ∷ ts))

unfoldable pub lower_all : List ℕ → List ℕ
lower_all [] = []
lower_all (b ∷ s) = lower b ∷ lower_all s

unfoldable pub server_compress : Config → List (List ℕ) → Bool
unfolding contains join lower_all
server_compress c offers =
    c.enable_compress && contains (codes "permessage-deflate") (lower_all (join offers))

abbrev pub with_level : Bool → Config → Config
with_level on c = record c {
  compress_level = if on && compress_level == 0 then default_compress_level else compress_level;
}
  where
    open c use {compress_level}

pub record Hijack : Type 0 where
  pub is_hijacker : Bool
  pub hijack_fails : Bool
  pub write_error : Option Error

-- An HTTP error and an error for the caller; an error once the network is taken over; or the
-- connection and the header fields of the answer.
pub data Taken : Type 0 where
  refused : ℕ → Error → Taken
  broken : Error → Taken
  taken : Connection → List (List ℕ × List ℕ) → Taken

unfoldable pub answer_fields : Bool → Option (List ℕ) → List ℕ → List (List ℕ × List ℕ)
answer_fields compress streams accept =
    (codes "Upgrade", codes "websocket")
    ∷ (codes "Connection", codes "Upgrade")
    ∷ (accept_key, accept)
    ∷ (elim streams [ none ↦ [] | some n ↦ (max_streams_key, n) ∷ [] ]
        ++ (if compress then (extensions_key, deflate_extension) ∷ [] else []))

-- The rest of `TakeOver`, once the streams are negotiated.
unfoldable pub hijack :
    (List ℕ → List ℕ)
    → (ℕ → List ℕ)
    → Hijack
    → Request
    → Config
    → Bool × ℕ × Option (List ℕ)
    → Taken
unfolding server_compress answer_fields new_connection
hijack digest entropy w r c (streamable, limit, answer) =
    let on = server_compress c (r.header.values extensions_key) in
    let c' = with_level on c in
    let accept = magic_digest digest (r.header.get (codes "Sec-Websocket-Key")) c.magic_key in
    if not w.is_hijacker
    then refused 501 (new_error "wrong writer to hijack")
    else if w.hijack_fails
    then refused 500 (new_error "failed to hijack the link")
    else elim w.write_error [
      | some e ↦ broken e
      | none ↦
          taken
            (new_connection false c'
              (record {
                streamable = streamable;
                max_streams = limit;
                compressable = on;
                compress_level = c'.compress_level;
              })
              entropy)
            (answer_fields on answer accept)
    ]

-- `header_ok` is what the user's `HeaderVerify` says, true if there is none.
unfoldable pub take_over :
    (List ℕ → List ℕ) → (ℕ → List ℕ) → Hijack → Request → Bool → Config → Taken
unfolding check_request server_streams hijack
take_over digest entropy w r header_ok config = elim (check_request r) [
  | some (code, e) ↦ refused code e
  | none ↦
      if not header_ok
      then refused 401 (new_error "header verify not passed")
      else elim (setup config) [
        | err e ↦ refused 500 e
        | ok c ↦ elim (server_streams c.max_streams (r.header.get max_streams_key)) [
          | err e ↦ refused 400 e
          | ok s ↦ hijack digest entropy w r c s
        ]
      ]
]
