-- ===== src/Handshake/Agreement.antt =====
-- What the two sides of a handshake agree on.
use webson.Common.{
  ℕ, ◌^◌, ◌≤◌, ◌<◌, ◌≡◌, refl, Bool, true, false, Bool-cases, inl, inr, not, ◌&&◌, ◌||◌,
  if◌then◌else◌, ltb, ◌==◌, bytes_eq, List, [], Option, none, some, arith,
}
use webson.Errors.{ok}
use webson.Config.{Config}
use webson.Handshake.Decimal.{itoa, atoi-itoa, itoa-cons}
use webson.Handshake.Server.{server_streams}
use webson.Handshake.Client.{offer_streams, client_streams}

abbrev pub smaller : ℕ → ℕ → ℕ
smaller n limit = if ltb n limit then n else limit

abbrev pub field : Option (List ℕ) → List ℕ
field none = []
field (some s) = s

itoa-not_empty : (n : ℕ) → bytes_eq (itoa n) [] ≡ false
itoa-not_empty n = let (d, ds, e) = itoa-cons n in rw e

server_streams-offered :
    (limit n : ℕ)
    → 1 ≤ n
    → n < 2 ^ 63
    → (limit == 0) ≡ false
    → server_streams limit (itoa n) ≡ ok (true, smaller n limit, some (itoa (smaller n limit)))
unfolding server_streams
server_streams-offered limit n lo small on =
    let e = atoi-itoa n small in let some_bytes = itoa-not_empty n in ground arith

server_streams-silent :
    (limit : ℕ) (want : List ℕ)
    → (limit == 0 || bytes_eq want []) ≡ true
    → server_streams limit want ≡ ok (false, limit, none)
unfolding server_streams
server_streams-silent limit want h = rw h

client_streams-answered :
    (c : Config) (n : ℕ)
    → c.enable_streams ≡ true
    → 1 ≤ n
    → n < 2 ^ 63
    → client_streams c (itoa n) ≡ ok (true, smaller n c.max_streams)
unfolding client_streams
client_streams-answered c n on lo small =
    let e = atoi-itoa n small in let some_bytes = itoa-not_empty n in ground arith

client_streams-silent : (c : Config) → client_streams c [] ≡ ok (false, 0)
unfolding client_streams
client_streams-silent c = ground arith

smaller-positive : (n limit : ℕ) → (limit == 0) ≡ false → 1 ≤ n → 1 ≤ smaller n limit
smaller-positive n limit h k = ground arith

-- Both sides of a handshake on their streams: whether there are any, and how many.
pub record IsAgreement (client server : Config) : Type 0 where
  pub on : Bool
  pub server_limit : ℕ
  pub client_limit : ℕ
  pub answer : Option (List ℕ)
  pub server_says :
      server_streams server.max_streams (offer_streams client) ≡ ok (on, server_limit, answer)
  pub client_says : client_streams client (field answer) ≡ ok (on, client_limit)
  pub exactly : on ≡ (client.enable_streams && not (server.max_streams == 0))
  pub same :
      on ≡ true
      → (client_limit ≡ server_limit)
        × (server_limit ≡ smaller client.max_streams server.max_streams)

-- With the client's offer and the server's answer, for limits of 63 bits and one stream at least
-- for a client that wants streams, neither side fails on the streams, both have streams exactly when both want them,
-- and then both have the smaller limit.
pub streams-IsAgreement :
    (client server : Config)
    → (client.enable_streams ≡ true → 1 ≤ client.max_streams)
    → client.max_streams < 2 ^ 63
    → server.max_streams < 2 ^ 63
    → IsAgreement client server
unfolding offer_streams
streams-IsAgreement client server lo small small' = elim (Bool-cases client.enable_streams) [
  | inr e ↦ record {
    on = false;
    server_limit = server.max_streams;
    client_limit = 0;
    answer = none;
    server_says = rw e (server_streams-silent server.max_streams [] (ground arith));
    client_says = client_streams-silent client;
    exactly = rw e;
    same = λ q. absurd cc;
  }
  | inl e ↦ elim (Bool-cases (server.max_streams == 0)) [
    | inl z ↦ record {
      on = false;
      server_limit = server.max_streams;
      client_limit = 0;
      answer = none;
      server_says =
          rw e (server_streams-silent server.max_streams (itoa client.max_streams) (ground arith));
      client_says = client_streams-silent client;
      exactly = rw (e, z);
      same = λ q. absurd cc;
    }
    | inr z ↦
        let agreed = smaller client.max_streams server.max_streams in
        record {
          on = true;
          server_limit = agreed;
          client_limit = smaller agreed client.max_streams;
          answer = some (itoa agreed);
          server_says =
              rw e (server_streams-offered server.max_streams client.max_streams (lo e) small z);
          client_says =
              client_streams-answered client agreed e (smaller-positive _ _ z (lo e))
                (ground arith);
          exactly = rw (e, z);
          same = λ q. (ground arith, refl);
        }
  ]
]
