-- ===== src/Handshake/Whole/Serving.antt =====
-- `TakeOver` on the request that `negotiate` writes.
use webson.Common.{
  ℕ, ◌≤◌, ◌≡◌, refl, ap, sym, ◌∙◌, Bool, true, false, ◌&&◌, ltb-eq-false, codes, List, [], Option,
  none, length,
}
use mathlib.Core.List.{Permᴰ}
use webson.Errors.{ok}
use webson.Message.{NegoSet}
use webson.Config.{Config, setup}
use webson.Config.Bounds.{IsReady, setup-ready}
use webson.Handshake.{
  max_streams_key, extensions_key, deflate_extension, magic_digest, new_connection,
}
use webson.Handshake.Decimal.{itoa}
use webson.Handshake.Fields.{Fields, header_of, values_of, canonical, first_of}
use webson.Handshake.Client.{offer_streams}
use webson.Handshake.Request.{request_fields}
use webson.Handshake.Server.{
  Request, Hijack, taken, check_request, proto_at_least, equal_fold, folded, text_lt,
  server_streams, server_compress, contains, starts_with, join, lower_all, with_level,
  answer_fields, hijack, take_over,
}
use webson.Handshake.Whole.Offer.{IsOffer, request-IsOffer, listed, listed-if}

-- The request as net/http hands it over.
abbrev pub request_of : Fields → Request
request_of fs = record {
  method = codes "GET";
  proto_major = 1;
  proto_minor = 1;
  header = header_of fs;
}

-- A response writer with which nothing fails.
pub record IsWorking (w : Hijack) : Type 0 where
  pub hijacker : w.is_hijacker ≡ true
  pub hijacks : w.hijack_fails ≡ false
  pub writes : w.write_error ≡ none

check_request-passes :
    (r : Request)
    → r.method ≡ codes "GET"
    → r.proto_major ≡ 1
    → r.proto_minor ≡ 1
    → r.header.get (codes "Connection") ≡ codes "Upgrade"
    → r.header.get (codes "Upgrade") ≡ codes "websocket"
    → r.header.get (codes "Sec-Websocket-Version") ≡ codes "13"
    → 24 ≤ length (r.header.get (codes "Sec-Websocket-Key"))
    → check_request r ≡ none
unfolding check_request proto_at_least equal_fold folded text_lt
check_request-passes r m j n c u v k = rw (m, j, n, c, u, v, ltb-eq-false _ 24 k) refl

pub get_of :
    (fs : Fields) (key : List ℕ) → (header_of fs).get key ≡ first_of (values_of (canonical key) fs)
unfolding header_of
get_of fs key = refl

check_request-offer :
    (fs : Fields) (s e : Bool) (challenge n : List ℕ)
    → IsOffer fs s e challenge n
    → 24 ≤ length challenge
    → check_request (request_of fs) ≡ none
check_request-offer fs s e challenge n o long =
    let long' : 24 ≤ length ((header_of fs).get (codes "Sec-Websocket-Key")) =
      rw (get_of fs (codes "Sec-Websocket-Key"), o.key) long in
    check_request-passes (request_of fs) refl refl refl (get_of fs _ ∙ ap first_of o.connection)
      (get_of fs _ ∙ ap first_of o.upgrade) (get_of fs _ ∙ ap first_of o.version) long'

server_compress-listed :
    (c : Config) (e : Bool)
    → server_compress c (listed e deflate_extension) ≡ (c.enable_compress && e)
unfolding server_compress contains starts_with join lower_all
server_compress-listed c true = refl
server_compress-listed c false = refl

abbrev pub served_nego : Config → Bool → Bool → ℕ → NegoSet
served_nego c on streamable limit = record {
  streamable = streamable;
  max_streams = limit;
  compressable = on;
  compress_level = (with_level on c).compress_level;
}

hijack-taken :
    (digest : List ℕ → List ℕ) (entropy : ℕ → List ℕ) (w : Hijack) (r : Request) (c : Config)
    (on streamable : Bool) (limit : ℕ) (answer : Option (List ℕ))
    → IsWorking w
    → server_compress c (r.header.values extensions_key) ≡ on
    → hijack digest entropy w r c (streamable, limit, answer)
      ≡ taken (new_connection false (with_level on c) (served_nego c on streamable limit) entropy) (
          answer_fields on answer
            (magic_digest digest (r.header.get (codes "Sec-Websocket-Key")) c.magic_key))
unfolding hijack
hijack-taken digest entropy w r c on streamable limit answer works e =
    rw (sym e, works.hijacker, works.hijacks, works.writes, hijack) refl

-- The guards, `setup` and the streams in front of `hijack`.
take_over-passes :
    (digest : List ℕ → List ℕ) (entropy : ℕ → List ℕ) (w : Hijack) (r : Request) (c : Config)
    (s : Bool × ℕ × Option (List ℕ))
    → check_request r ≡ none
    → setup c ≡ ok c
    → server_streams c.max_streams (r.header.get max_streams_key) ≡ ok s
    → take_over digest entropy w r true c ≡ hijack digest entropy w r c s
unfolding take_over
take_over-passes digest entropy w r c s a b e = rw (a, b, e, take_over) refl

limit_offered :
    (client : Config) (fs : Fields) (challenge : List ℕ)
    → IsOffer fs client.enable_streams client.enable_compress challenge (itoa client.max_streams)
    → (header_of fs).get max_streams_key ≡ offer_streams client
unfolding offer_streams
limit_offered client fs challenge o =
    get_of fs max_streams_key
    ∙ ap first_of o.limit
    ∙ listed-if client.enable_streams (itoa client.max_streams)

values_get : (fs : Fields) (key : List ℕ) → (header_of fs).values key ≡ values_of (canonical key) fs
unfolding header_of
values_get fs key = refl

-- The answer of the server to the request of a client.
pub take_over-taken :
    (digest : List ℕ → List ℕ) (entropy : ℕ → List ℕ) (w : Hijack) (client server : Config)
    (challenge : List ℕ) (fs : Fields) (streamable : Bool) (limit : ℕ) (answer : Option (List ℕ))
    → IsReady server
    → IsWorking w
    → 24 ≤ length challenge
    → Permᴰ fs (request_fields challenge [] client)
    → server_streams server.max_streams (offer_streams client) ≡ ok (streamable, limit, answer)
    → take_over digest entropy w (request_of fs) true server
      ≡ taken
          (new_connection false
            (with_level (server.enable_compress && client.enable_compress) server)
            (served_nego server (server.enable_compress && client.enable_compress) streamable limit)
            entropy)
          (answer_fields
            (server.enable_compress && client.enable_compress)
            answer
            (magic_digest digest challenge server.magic_key))
take_over-taken digest entropy w client server challenge fs streamable limit answer ready works long
      order says =
    let both = server.enable_compress && client.enable_compress in
    let o = request-IsOffer challenge client fs order in
    let c = check_request-offer fs _ _ challenge _ o long in
    let streams : server_streams server.max_streams ((header_of fs).get max_streams_key)
        ≡ ok (streamable, limit, answer) =
      ap (server_streams server.max_streams) (limit_offered client fs challenge o) ∙ says in
    let on : server_compress server ((header_of fs).values extensions_key)
        ≡ (server.enable_compress && client.enable_compress) =
      ap (server_compress server) (values_get fs extensions_key ∙ o.extensions)
      ∙ server_compress-listed server client.enable_compress in
    let key : (header_of fs).get (codes "Sec-Websocket-Key") ≡ challenge =
      get_of fs _ ∙ ap first_of o.key in
    take_over-passes digest entropy w (request_of fs) server _ c (setup-ready server ready) streams
    ∙ hijack-taken digest entropy w (request_of fs) server _ streamable limit answer works on
    ∙ ap
        (λ k.
          taken
            (new_connection false (with_level both server)
              (served_nego server both streamable limit) entropy)
            (answer_fields both answer (magic_digest digest k server.magic_key)))
        key
