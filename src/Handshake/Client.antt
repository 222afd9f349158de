-- ===== src/Handshake/Client.antt =====
-- client.go: the second half of `negotiate`, once the header fields of the answer are read.
use webson.Common.{
  ℕ, Bool, true, false, not, ◌&&◌, ◌||◌, if◌then◌else◌, ltb, ◌==◌, bytes_eq, List, [], ◌∷◌, none,
  some,
}
use webson.Errors.{new_error, Result, ok, err, ◌>>=◌}
use webson.Message.{NegoSet}
use webson.Config.{Config, default_compress_level}
use webson.Handshake.{
  Header, max_streams_key, extensions_key, accept_key, deflate_extension, magic_digest,
}
use webson.Handshake.Decimal.{itoa, atoi}

-- The two header fields of the request that offer something, if `ExtraHeaders` has neither.
unfoldable pub offer_streams : Config → List ℕ
offer_streams c = if c.enable_streams then itoa c.max_streams else []

unfoldable pub offer_compress : Config → List (List ℕ)
offer_compress c = if c.enable_compress then deflate_extension ∷ [] else []

unfoldable pub check_accept : (List ℕ → List ℕ) → List ℕ → Config → List ℕ → Result Bool
check_accept digest challenge c accept =
    if bytes_eq accept [] || not (bytes_eq (magic_digest digest challenge c.magic_key) accept)
    then err (new_error "invalid accept key")
    else ok true

unfoldable pub client_compress : Config → List ℕ → Bool × ℕ
client_compress c extension =
    if c.enable_compress && bytes_eq extension deflate_extension
    then (true, if c.compress_level == 0 then default_compress_level else c.compress_level)
    else (false, 0)

-- `num_error` is the error of strconv.Atoi.
unfoldable pub client_streams : Config → List ℕ → Result (Bool × ℕ)
client_streams c answer =
    if c.enable_streams && not (bytes_eq answer [])
    then elim (atoi answer) [
      | none ↦ err (new_error "strconv.Atoi")
      | some (negative, n) ↦
          if negative || n == 0
          then ok (false, 0)
          else ok (true, if ltb n c.max_streams then n else c.max_streams)
    ]
    else ok (false, 0)

-- `header_ok` is what the user's `HeaderVerify` says, true if there is none.
unfoldable pub accept_answer : (List ℕ → List ℕ) → List ℕ → Bool → Config → Header → Result NegoSet
unfolding check_accept client_compress client_streams
accept_answer digest challenge header_ok c h = do
  verified ← (if header_ok then ok true else err (new_error "header verify not passed"))
  accepted ← check_accept digest challenge c (h.get accept_key)
  let (compressable, level) = client_compress c (h.get extensions_key)
  (streamable, limit) ← client_streams c (h.get max_streams_key)
  ok (record {
    streamable = streamable;
    max_streams = limit;
    compressable = compressable;
    compress_level = level;
  })
