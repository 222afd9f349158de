-- ===== src/Handshake/Whole/Agreeing.antt =====
-- `TakeOver` on the request of a client: what the connection has.
use webson.Common.{
  ℕ, ◌≤◌, ◌≡◌, refl, ap, ◌∙◌, ◌⊎◌, ◌||◌, Bool, true, false, not, ◌&&◌, ◌==◌, bytes_eq, List, [],
  Option, none, some, length, All, Bool-cases, Option-cases, inl, inr, arith,
}
use mathlib.Core.List.{Permᴰ}
use webson.Errors.{ok}
use webson.Message.{NegoSet}
use webson.Config.{Config}
use webson.Config.Bounds.{IsReady}
use webson.Connection.{Connection, prepare}
use webson.Handshake.{new_connection}
use webson.Handshake.Agreement.{IsAgreement, streams-IsAgreement, smaller}
use webson.Handshake.Decimal.{itoa, atoi}
use webson.Handshake.Fields.{Fields}
use webson.Handshake.Request.{request_fields}
use webson.Handshake.Server.{Hijack, taken, take_over, with_level, server_streams}
use webson.Handshake.Whole.Reply.{listed_some}
use webson.Handshake.Whole.Serving.{IsWorking, request_of, take_over-taken, served_nego}
use webson.Handshake.Whole.Plain.{IsValue, itoa-IsValue}

-- The number of streams in the answer.
pub IsCount : ℕ → Option (List ℕ) → Type 0
IsCount limit answer = (answer ≡ none) ⊎ ((k : ℕ) × (answer ≡ some (itoa k)) × (k ≤ limit))

pub server_streams-IsCount :
    (limit n : ℕ) (want : List ℕ) (s : Bool) (answer : Option (List ℕ))
    → server_streams limit want ≡ ok (s, n, answer)
    → IsCount limit answer
unfolding server_streams IsCount
server_streams-IsCount limit n want s answer e =
    elim (Bool-cases (limit == 0 || bytes_eq want [])) [
      | inl q ↦ inl (ground arith)
      | inr q ↦ elim (Option-cases (atoi want)) [
        | inl z ↦ absurd (ground arith)
        | inr ((negative, m), z) ↦ elim (Bool-cases (negative || m == 0)) [
          | inl bad ↦ absurd (ground arith)
          | inr good ↦ inr (smaller m limit, ground arith, ground arith)
        ]
      ]
    ]

pub count_short :
    (limit : ℕ) (answer : Option (List ℕ))
    → limit ≤ 32768
    → IsCount limit answer
    → All (IsValue 4096) (listed_some answer)
unfolding IsCount
count_short limit answer h (inl e) = rw e tt
count_short limit answer h (inr (k, e, l)) =
    rw e (itoa-IsValue 4096 k (omega arith) (omega arith), tt)

pub new_connection-nego :
    (b : Bool) (c : Config) (nego : NegoSet) (entropy : ℕ → List ℕ)
    → (new_connection b c nego entropy).nego ≡ nego
unfolding new_connection prepare
new_connection-nego b c nego entropy = refl

pub ready_agreement :
    (client server : Config) → IsReady client → IsReady server → IsAgreement client server
ready_agreement client server rc rs =
    streams-IsAgreement client server rc.streams_on (omega (arith, rc.streams_fit))
      (omega (arith, rs.streams_fit))

ready_on :
    (client server : Config)
    → IsReady server
    → (client.enable_streams && not (server.max_streams == 0))
      ≡ (client.enable_streams && server.enable_streams)
ready_on client server r = elim (Bool-cases server.enable_streams) [
  | inl e ↦ let p = r.streams_on e in ground arith
  | inr e ↦ let p = r.streams_off e in ground arith
]

-- For two configurations that setup has completed, a HeaderVerify of the server that, if there is
-- one, passes, a response writer with which nothing fails and a challenge of 24 bytes at least,
-- TakeOver accepts the request of a client without extra header fields, its fields in any order,
-- and its connection has streams, and compression, exactly when both sides want them.
pub take_over-accepts :
    (digest : List ℕ → List ℕ) (entropy : ℕ → List ℕ) (w : Hijack) (client server : Config)
    (challenge : List ℕ) (request : Fields)
    → IsReady client
    → IsReady server
    → IsWorking w
    → 24 ≤ length challenge
    → Permᴰ request (request_fields challenge [] client)
    → (con : Connection) × (fields : Fields) × (take_over digest entropy w
          (request_of request)
          true
          server
        ≡ taken con fields)
      × (con.nego.streamable ≡ (client.enable_streams && server.enable_streams))
      × (con.nego.compressable ≡ (server.enable_compress && client.enable_compress))
take_over-accepts digest entropy w client server challenge request rc rs works long order =
    let a = ready_agreement client server rc rs in
    let taken_eq =
      take_over-taken digest entropy w client server challenge request a.on a.server_limit a.answer
        rs works long order a.server_says in
    let n : (new_connection false _
          (served_nego server (server.enable_compress && client.enable_compress) a.on
            a.server_limit)
          entropy).nego
        ≡ _ =
      new_connection-nego false
        (with_level (server.enable_compress && client.enable_compress) server) _ entropy in
    (
      _,
      _,
      taken_eq,
      ap (λ x. x.streamable) n ∙ a.exactly ∙ ready_on client server rs,
      ap (λ x. x.compressable) n,
    )
