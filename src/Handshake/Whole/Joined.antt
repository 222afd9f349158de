-- ===== src/Handshake/Whole/Joined.antt =====
-- `Dial` against `TakeOver`: the outcome on both sides.
use webson.Common.{
  ℕ, ◌≤◌, ◌≡◌, refl, ap, sym, ◌∙◌, Bool, true, false, ◌&&◌, bytes_eq, List, [], ◌++◌, Option, none,
  length, flatten, All, arith,
}
use mathlib.Core.List.{Permᴰ}
use webson.Errors.{ok}
use webson.Message.{NegoSet}
use webson.Config.{Config}
use webson.Config.Bounds.{IsReady}
use webson.Connection.{Connection}
use webson.Reader.{Reader, new_reader}
use webson.Handshake.{magic_digest}
use webson.Handshake.Agreement.{IsAgreement, field}
use webson.Handshake.Fields.{Fields}
use webson.Handshake.Fields.Order.{All-perm}
use webson.Handshake.Url.{SimpleUrl}
use webson.Handshake.Request.{request_fields, request_bytes}
use webson.Handshake.Answer.{answered, read_answer, answer_bytes}
use webson.Handshake.Answer.RoundTrip.{IsPlain, IsAnswered, read_answer-answer_bytes}
use webson.Handshake.Server.{Hijack, taken, take_over, with_level, answer_fields}
use webson.Handshake.Client.{client_streams}
use webson.Handshake.Whole.Agreeing.{
  ready_agreement, new_connection-nego, count_short, server_streams-IsCount,
}
use webson.Handshake.Dial.{Network, Dialing, negotiated, negotiate, on_answer, accepted}
use webson.Handshake.Whole.Reply.{IsReply, order-IsReply}
use webson.Handshake.Whole.Serving.{IsWorking, request_of, take_over-taken, served_nego}
use webson.Handshake.Whole.Accepting.{accept_answer-reply, agreed_level}
use webson.Handshake.Whole.Plain.{IsValue, answer-IsPlain}

-- What a connection of the client and one of the server have in common.
pub record IsSame (client server : NegoSet) : Type 0 where
  pub streamable : client.streamable ≡ server.streamable
  pub compressable : client.compressable ≡ server.compressable
  pub limit : client.streamable ≡ true → client.max_streams ≡ server.max_streams

negotiate-answered :
    (d : Dialing) (url : SimpleUrl) (n : Network) (c : Config) (fs : Fields) (rest : List ℕ)
    (nego : NegoSet)
    → n.write_error ≡ none
    → IsAnswered (read_answer (new_reader 4096 n.pieces n.ending)) 4096 fs rest
    → ((r : Reader)
        → on_answer d c (request_bytes url (request_fields d.challenge d.extra c)) (answered fs r)
          ≡ negotiated (request_bytes url (request_fields d.challenge d.extra c)) nego r.pending)
    → (left : List (List ℕ)) × (negotiate d url (ok n) c
        ≡ negotiated (request_bytes url (request_fields d.challenge d.extra c)) nego left)
unfolding negotiate
negotiate-answered d url n c fs rest nego w (r, a, k, z) says =
    (r.pending, rw (w, a, negotiate) (says r))

taken-eq : (a b : Connection) (fs gs : Fields) → taken a fs ≡ taken b gs → (a ≡ b) × (fs ≡ gs)
taken-eq a b fs gs e = (cc, cc)

-- `negotiate` behind the fields of the answer.
accepts_reply :
    (d : Dialing) (client server : Config) (sent : List ℕ) (reply : Fields) (streamable : Bool)
    (limit : ℕ) (answer : Option (List ℕ)) (r : Reader)
    → d.header_verify ≡ none
    → bytes_eq (magic_digest d.digest d.challenge client.magic_key) [] ≡ false
    → IsReply reply
        (server.enable_compress && client.enable_compress)
        answer
        (magic_digest d.digest d.challenge client.magic_key)
    → client_streams client (field answer) ≡ ok (streamable, limit)
    → on_answer d client sent (answered reply r)
      ≡ negotiated sent
          (record {
            streamable = streamable;
            max_streams = limit;
            compressable = server.enable_compress && client.enable_compress;
            compress_level = agreed_level (server.enable_compress && client.enable_compress) client;
          })
          r.pending
accepts_reply d client server sent reply streamable limit answer r verify some_bytes is_reply says =
    rw verify (
      ap (accepted sent r) (
        accept_answer-reply d.digest d.challenge client server reply streamable limit answer _
          is_reply refl some_bytes says))

-- The two sides: a client without extra header fields and a verifier of its own, a key of 24 bytes, and
-- an accept key that is one line.
pub record IsMatching (d : Dialing) (client server : Config) : Type 0 where
  pub client_ready : IsReady client
  pub server_ready : IsReady server
  pub extra : d.extra ≡ []
  pub verify : d.header_verify ≡ none
  pub long : 24 ≤ length d.challenge
  pub magic : client.magic_key ≡ server.magic_key
  pub some_bytes : bytes_eq (magic_digest d.digest d.challenge client.magic_key) [] ≡ false
  pub value : IsValue 4096 (magic_digest d.digest d.challenge client.magic_key)

dialed-IsAnswered :
    (n : Network) (fs : Fields) (rest : List ℕ)
    → All (IsPlain 4096) fs
    → flatten n.pieces ≡ answer_bytes fs ++ rest
    → IsAnswered (read_answer (new_reader 4096 n.pieces n.ending)) 4096 fs rest
unfolding new_reader
dialed-IsAnswered n fs rest plain bytes =
    read_answer-answer_bytes fs rest (new_reader 4096 n.pieces n.ending) plain (omega arith) bytes

agreed-IsSame :
    (client server : Config) (a : IsAgreement client server) (con : Connection)
    → con.nego
      ≡ served_nego server (server.enable_compress && client.enable_compress) a.on a.server_limit
    → IsSame
        (record {
          streamable = a.on;
          max_streams = a.client_limit;
          compressable = server.enable_compress && client.enable_compress;
          compress_level = agreed_level (server.enable_compress && client.enable_compress) client;
        })
        con.nego
agreed-IsSame client server a con e = record {
  streamable = sym (ap (λ x. x.streamable) e);
  compressable = sym (ap (λ x. x.compressable) e);
  limit = λ on. (a.same on).0 ∙ sym (ap (λ x. x.max_streams) e);
}

module _ (entropy : ℕ → List ℕ) (w : Hijack) (d : Dialing) (client server : Config) where
  -- The server's connection, and the order of the answer's fields.
  taken_with :
      (con : Connection) (request fields reply : Fields)
      → (m : IsMatching d client server) → IsWorking w
      → Permᴰ request (request_fields d.challenge d.extra client)
      → take_over d.digest entropy w (request_of request) true server ≡ taken con fields
      → Permᴰ reply fields
      → (con.nego
          ≡ served_nego server
              (server.enable_compress && client.enable_compress)
              (ready_agreement client server m.client_ready m.server_ready).on
              (ready_agreement client server m.client_ready m.server_ready).server_limit)
        × Permᴰ reply (
            answer_fields
              (server.enable_compress && client.enable_compress)
              (ready_agreement client server m.client_ready m.server_ready).answer
              (magic_digest d.digest d.challenge client.magic_key))
  taken_with con request fields reply m works order says reorder =
      let both = server.enable_compress && client.enable_compress in
      let a = ready_agreement client server m.client_ready m.server_ready in
      let taken_eq =
        take_over-taken d.digest entropy w client server d.challenge request a.on a.server_limit
          a.answer m.server_ready works m.long (rw (sym m.extra) order) a.server_says in
      let (same_con, same_fields) = taken-eq _ con _ fields (sym taken_eq ∙ says) in
      let same_reply =
        ap (λ k. answer_fields both a.answer (magic_digest d.digest d.challenge k)) m.magic
        ∙ same_fields in
      (
        ap (λ c. c.nego) (sym same_con)
            ∙ new_connection-nego false (with_level both server) _ entropy,
        rw same_reply reorder,
      )

  -- For two configurations that setup has completed, with the same magic key, a client without
  -- extra header fields and a verifier of its own, a challenge of 24 bytes at least, a response
  -- writer with which nothing fails and an accept key that is one line: once TakeOver has taken
  -- over the client's request, its fields in any order, negotiate on the bytes of the answer, their
  -- fields in any order, in any pieces and with any bytes behind, succeeds, and both sides have the
  -- same on streams and compression, and the same number of streams if there are any.
  pub negotiate-IsSame :
      (url : SimpleUrl) (n : Network) (con : Connection) (request fields reply : Fields)
      (rest : List ℕ)
      → IsMatching d client server
      → IsWorking w
      → Permᴰ request (request_fields d.challenge d.extra client)
      → take_over d.digest entropy w (request_of request) true server ≡ taken con fields
      → Permᴰ reply fields
      → n.write_error ≡ none
      → flatten n.pieces ≡ answer_bytes reply ++ rest
      → (nego : NegoSet) × (left : List (List ℕ)) × (negotiate d url (ok n) client
          ≡ negotiated (request_bytes url (request_fields d.challenge d.extra client)) nego left)
        × IsSame nego con.nego
  negotiate-IsSame url n con request fields reply rest m works order says reorder writes bytes =
      let both = server.enable_compress && client.enable_compress in
      let a = ready_agreement client server m.client_ready m.server_ready in
      let (same_con, reply_order) =
        taken_with con request fields reply m works order says reorder in
      let is_reply = order-IsReply reply both a.answer _ reply_order in
      let short =
        count_short server.max_streams a.answer m.server_ready.streams_fit
          (server_streams-IsCount _ _ _ _ a.answer a.server_says) in
      let plain =
        All-perm (IsPlain 4096) reply_order
          (answer-IsPlain 4096 both a.answer _ (omega arith) m.value short) in
      let got = dialed-IsAnswered n reply rest plain bytes in
      let (left, done) = negotiate-answered d url n client reply rest _ writes got (λ r.
        accepts_reply d client server _ reply a.on a.client_limit a.answer r m.verify m.some_bytes
          is_reply a.client_says) in
      (_, left, done, agreed-IsSame client server a con same_con)
