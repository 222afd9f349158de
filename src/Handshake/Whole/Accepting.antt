-- ===== src/Handshake/Whole/Accepting.antt =====
-- The second half of `negotiate` on the answer of `TakeOver`.
use webson.Common.{
  ℕ, ◌≡◌, refl, ap, ◌∙◌, Bool, true, false, ◌&&◌, if◌then◌else◌, ◌==◌, bytes_eq, bytes_eq_refl,
  List, [], Option, none, some,
}
use webson.Errors.{ok}
use webson.Config.{Config, default_compress_level}
use webson.Handshake.{
  Header, max_streams_key, extensions_key, accept_key, deflate_extension, magic_digest,
}
use webson.Handshake.Agreement.{field}
use webson.Handshake.Fields.{Fields, header_of, first_of}
use webson.Handshake.Client.{check_accept, client_compress, client_streams, accept_answer}
use webson.Handshake.Whole.Offer.{listed}
use webson.Handshake.Whole.Reply.{IsReply, listed_some}
use webson.Handshake.Whole.Serving.{get_of}

first_of_some : (o : Option (List ℕ)) → first_of (listed_some o) ≡ field o
first_of_some none = refl
first_of_some (some v) = refl

check_accept-same :
    (digest : List ℕ → List ℕ) (challenge : List ℕ) (c : Config) (accept : List ℕ)
    → magic_digest digest challenge c.magic_key ≡ accept
    → bytes_eq accept [] ≡ false
    → check_accept digest challenge c accept ≡ ok true
unfolding check_accept
check_accept-same digest challenge c accept e some_bytes =
    rw (e, some_bytes, bytes_eq_refl accept, check_accept) refl

-- The level that the client sets if both sides want compression.
abbrev pub agreed_level : Bool → Config → ℕ
agreed_level on c =
    if on then (if c.compress_level == 0 then default_compress_level else c.compress_level) else 0

client_compress-listed :
    (c : Config) (s e : Bool)
    → c.enable_compress ≡ e
    → client_compress c (first_of (listed (s && e) deflate_extension))
      ≡ (s && e, agreed_level (s && e) c)
unfolding client_compress
client_compress-listed c true true h = rw h refl
client_compress-listed c true false h = rw h refl
client_compress-listed c false true h = rw h refl
client_compress-listed c false false h = rw h refl

accept_answer-passes :
    (digest : List ℕ → List ℕ) (challenge : List ℕ) (c : Config) (h : Header) (on streamable : Bool)
    (level limit : ℕ)
    → check_accept digest challenge c (h.get accept_key) ≡ ok true
    → client_compress c (h.get extensions_key) ≡ (on, level)
    → client_streams c (h.get max_streams_key) ≡ ok (streamable, limit)
    → accept_answer digest challenge true c h
      ≡ ok (record {
        streamable = streamable;
        max_streams = limit;
        compressable = on;
        compress_level = level;
      })
unfolding accept_answer
accept_answer-passes digest challenge c h on streamable level limit a b e =
    rw (a, b, e, accept_answer) refl

-- The client takes the answer.
pub accept_answer-reply :
    (digest : List ℕ → List ℕ) (challenge : List ℕ) (client server : Config) (fs : Fields)
    (streamable : Bool) (limit : ℕ) (answer : Option (List ℕ)) (accept : List ℕ)
    → IsReply fs (server.enable_compress && client.enable_compress) answer accept
    → magic_digest digest challenge client.magic_key ≡ accept
    → bytes_eq accept [] ≡ false
    → client_streams client (field answer) ≡ ok (streamable, limit)
    → accept_answer digest challenge true client (header_of fs)
      ≡ ok (record {
        streamable = streamable;
        max_streams = limit;
        compressable = server.enable_compress && client.enable_compress;
        compress_level = agreed_level (server.enable_compress && client.enable_compress) client;
      })
accept_answer-reply digest challenge client server fs streamable limit answer accept reply key
      some_bytes says =
    accept_answer-passes digest challenge client (header_of fs) _ streamable _ limit
      (ap (check_accept digest challenge client) (get_of fs accept_key ∙ ap first_of reply.accepted)
        ∙ check_accept-same digest challenge client accept key some_bytes)
      (ap (client_compress client) (get_of fs extensions_key ∙ ap first_of reply.extensions)
        ∙ client_compress-listed client server.enable_compress client.enable_compress refl)
      (ap (client_streams client)
          (get_of fs max_streams_key ∙ ap first_of reply.limit ∙ first_of_some answer)
        ∙ says)
