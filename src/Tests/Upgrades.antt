-- ===== src/Tests/Upgrades.antt =====
-- The upgrade with both of its sides.
use webson.Common.{
  ℕ, ◌≡◌, refl, true, false, codes, List, [], ◌∷◌, ◌++◌, none, All, flatten, take, drop, arith,
}
use mathlib.Core.List.Permᴰ
use webson.Errors.{eof, ok}
use webson.Message.{NegoSet}
use webson.Config.{setup, setup_streams, effective_streams, check_private_mask, setup_sizes}
use webson.Connection.{Connection}
use webson.Reader.{Reader}
use webson.Tests.{ready_config, some_mask, a_reader, streams_nego}
use webson.Tests.Connections.{ready_config-IsReady}
use webson.Handshake.{magic_digest, new_connection, max_streams_key, accept_key}
use webson.Handshake.Decimal.{atoi, itoa, digits, parse_digits}
use webson.Handshake.Fields.{Fields, canonical, is_token, dashed, values_of, header_of}
use webson.Handshake.Server.{
  Hijack, taken, take_over, lower_all, check_request, proto_at_least, equal_fold, folded, text_lt,
  server_streams, hijack, server_compress, answer_fields,
}
use webson.Handshake.Url.{SimpleUrl}
use webson.Handshake.Request.{request_fields, request_bytes, set_fields, set_field}
use webson.Handshake.Answer.{read_answer, answer_bytes, title, trim, trim_left, trim_right}
use webson.Handshake.Answer.Reading.{is_over, read_answer-is_over}
use webson.Handshake.Answer.RoundTrip.{IsPlain, IsAnswered, read_answer-answer_bytes}
use webson.Handshake.Dial.{Network, Dialing, negotiate, negotiated}
use webson.Handshake.Whole.Serving.{IsWorking, request_of}
use webson.Handshake.Whole.Agreeing.{take_over-accepts}
use webson.Handshake.Whole.Joined.{IsSame, IsMatching, negotiate-IsSame}

abbrev answer_fields_two : Fields
answer_fields_two = (codes "Upgrade", codes "websocket") ∷ (max_streams_key, codes "12") ∷ []

two-IsPlain : All (IsPlain 4096) answer_fields_two
unfolding canonical is_token dashed title lower_all trim trim_left trim_right
two-IsPlain = (
  record {
    key_some = refl;
    key_colon = refl;
    key_break = refl;
    key_canonical = refl;
    value_break = refl;
    value_trim = refl;
    room = omega arith;
  },
  (
    record {
      key_some = refl;
      key_colon = refl;
      key_break = refl;
      key_canonical = refl;
      value_break = refl;
      value_trim = refl;
      room = omega arith;
    },
    tt,
  ),
)

abbrev in_pieces : Reader
in_pieces = record {
  size = 4096;
  buffered = [];
  pending =
      take 20 (answer_bytes answer_fields_two)
      ∷ (drop 20 (answer_bytes answer_fields_two) ++ (7 ∷ []))
      ∷ [];
  ending = eof;
  behind = none;
}

in_pieces_all : flatten in_pieces.pending ≡ answer_bytes answer_fields_two ++ (7 ∷ [])
unfolding answer_bytes webson.Handshake.Request.field_lines
in_pieces_all = refl

read_answer-answer_bytes_example :
    IsAnswered (read_answer in_pieces) 4096 answer_fields_two (7 ∷ [])
read_answer-answer_bytes_example =
    read_answer-answer_bytes answer_fields_two (7 ∷ []) in_pieces two-IsPlain (omega arith)
      in_pieces_all

read_answer-is_over_example : is_over (read_answer (a_reader (codes "HTTP/1.1 101"))) ≡ true
read_answer-is_over_example = read_answer-is_over (a_reader (codes "HTTP/1.1 101"))

abbrev working : Hijack
working = record { is_hijacker = true; hijack_fails = false; write_error = none }

working-IsWorking : IsWorking working
working-IsWorking = record { hijacker = refl; hijacks = refl; writes = refl }

abbrev dialing : Dialing
dialing = record {
  digest = λ t. codes "s3pPLMBiTxaQ9kYGzzhZRbK+xOo=";
  challenge = codes "dGhlIHNhbXBsZSBub25jZQ==";
  extra = [];
  header_verify = none;
}

take_over-accepts_example :
    (con : Connection) × (fields : Fields) × (take_over dialing.digest some_mask working
        (request_of (request_fields dialing.challenge [] ready_config))
        true
        ready_config
      ≡ taken con fields)
    × (con.nego.streamable ≡ true)
    × (con.nego.compressable ≡ false)
take_over-accepts_example =
    take_over-accepts dialing.digest some_mask working ready_config ready_config dialing.challenge
      (request_fields dialing.challenge [] ready_config) ready_config-IsReady ready_config-IsReady
      working-IsWorking (omega arith) (Permᴰ.refl _)

abbrev served_fields : Fields
served_fields =
    (codes "Upgrade", codes "websocket")
    ∷ (codes "Connection", codes "Upgrade")
    ∷ (accept_key, codes "s3pPLMBiTxaQ9kYGzzhZRbK+xOo=")
    ∷ (max_streams_key, codes "3")
    ∷ []

abbrev served_con : Connection
served_con = new_connection false ready_config (record streams_nego { max_streams = 3 }) some_mask

serves :
    take_over dialing.digest some_mask working
      (request_of (request_fields dialing.challenge [] ready_config))
      true
      ready_config
    ≡ taken served_con served_fields
unfolding take_over check_request proto_at_least equal_fold folded text_lt header_of canonical
    is_token dashed values_of request_fields set_fields set_field server_streams atoi itoa digits
    parse_digits setup setup_streams effective_streams check_private_mask setup_sizes hijack
    server_compress answer_fields magic_digest
serves = refl

matching : IsMatching dialing ready_config ready_config
unfolding magic_digest trim trim_left trim_right
matching = record {
  client_ready = ready_config-IsReady;
  server_ready = ready_config-IsReady;
  extra = refl;
  verify = refl;
  long = omega arith;
  magic = refl;
  some_bytes = refl;
  value = record { value_break = refl; value_trim = refl; room = omega arith };
}

abbrev url : SimpleUrl
url = record { host_port = codes "host:80"; path = codes "/"; user_password = []; use_tls = false }

-- The answer comes together with the first frame.
abbrev network : Network
network = record {
  pieces = (answer_bytes served_fields ++ (129 ∷ 0 ∷ [])) ∷ [];
  ending = eof;
  write_error = none;
}

network_bytes : flatten network.pieces ≡ answer_bytes served_fields ++ (129 ∷ 0 ∷ [])
unfolding answer_bytes webson.Handshake.Request.field_lines
network_bytes = refl

negotiate-IsSame_example :
    (nego : NegoSet) × (left : List (List ℕ)) × (negotiate dialing url (ok network) ready_config
      ≡ negotiated (request_bytes url (request_fields dialing.challenge [] ready_config)) nego left)
    × IsSame nego served_con.nego
negotiate-IsSame_example =
    negotiate-IsSame some_mask working dialing ready_config ready_config url network served_con
      (request_fields dialing.challenge [] ready_config) served_fields served_fields (129 ∷ 0 ∷ [])
      matching working-IsWorking (Permᴰ.refl _) serves (Permᴰ.refl _) refl network_bytes
