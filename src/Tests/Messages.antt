-- ===== src/Tests/Messages.antt =====
-- Splitting, masking, headers, close codes and delivery.
use webson.Common.{
  ℕ, ◌≡◌, refl, Bool, true, false, List, [], ◌∷◌, none, some, flatten, map, All, codes, arith,
}
use webson.Tests.{plain_flate, streams_nego, plain_nego, some_mask, a_message, masked_stream, hello}
use webson.Message.{Message, CloseCode, no_send}
use webson.Errors.{ok}
use webson.Common.Words.{big_endian}
use webson.Message.Close.{
  to_bytes, parse_close_code, parse_close_code-to_bytes, to_bytes-parse_close_code,
}
use webson.Message.Split.{split}
use webson.Message.Split.Chunks.{cut, frames, split-frames}
use webson.Message.Split.Laws.{Fits, split-payloads}
use webson.Message.Meta.{parse_meta, meta_guard, meta_fields, check_stream_size}
use webson.Message.Meta.Rules.{IsAllowed, parse_meta-accepts, parse_meta-allowed, with_header}
use webson.Message.Assemble.{assemble, compress_payload, stream_payload}
use webson.Message.Assemble.Shape.{assembled, assemble_lem}
use webson.Message.Collect.{read, read_iter}
use webson.Message.Collect.Delivery.{merge_all, read_iter-delivers, read-merge_all}

abbrev hello_message : Message
hello_message = a_message masked_stream streams_nego 1 false hello

split-frames_example : split hello_message 2 ≡ frames hello_message (cut 5 2 hello)
split-frames_example = split-frames hello_message 2 (omega arith)

split-payloads_example :
    (flatten (map (λ c. c.payload) (split hello_message 2)) ≡ hello)
    × All (Fits 2) (map (λ c. c.payload) (split hello_message 2))
split-payloads_example = split-payloads hello_message 2 (omega arith)

-- A final text frame of a stream, masked, with seven bytes.
abbrev allowed : IsAllowed hello_message 161 135
allowed = record {
  control_complete = λ h. omega arith;
  control_small = λ h. omega arith;
  no_final_continue = λ h. omega arith;
  compress_agreed = λ h. absurd (omega arith);
  stream_agreed = λ h. refl;
  no_rsv3 = refl;
  client_masked = λ h. omega arith;
  room_for_stream = λ h. omega arith;
}

parse_meta-allowed_example :
    parse_meta hello_message 161 135 ≡ (none, with_header hello_message 161 135)
parse_meta-allowed_example =
    parse_meta-allowed hello_message 161 135 (omega arith) (omega arith) allowed

header_accepted : (parse_meta hello_message 161 135).0 ≡ none
unfolding parse_meta meta_guard meta_fields check_stream_size
header_accepted = refl

parse_meta-accepts_example : IsAllowed hello_message 161 135
parse_meta-accepts_example =
    parse_meta-accepts hello_message 161 135 (omega arith) (omega arith) header_accepted

hello_packed : compress_payload plain_flate masked_stream hello ≡ ok hello
unfolding compress_payload
hello_packed = refl

assemble_lem_example :
    assemble plain_flate (some_mask 0) hello_message
    ≡ ok (assembled hello_message (some_mask 0) (stream_payload masked_stream hello))
assemble_lem_example = assemble_lem plain_flate (some_mask 0) hello_message hello refl hello_packed

abbrev going_away : CloseCode
going_away = record { code = 1001; reason = codes "bye" }

parse_close_code-to_bytes_example : parse_close_code (to_bytes going_away) ≡ some going_away
parse_close_code-to_bytes_example = parse_close_code-to_bytes going_away (omega arith)

abbrev raw_code : List ℕ
raw_code = 3 ∷ 233 ∷ 98 ∷ []

abbrev read_code : CloseCode
read_code = record { code = 1001; reason = 98 ∷ [] }

raw_code_parsed : parse_close_code raw_code ≡ some read_code
unfolding parse_close_code big_endian
raw_code_parsed = refl

to_bytes-parse_close_code_example : to_bytes read_code ≡ raw_code
to_bytes-parse_close_code_example =
    to_bytes-parse_close_code raw_code read_code (omega arith, (omega arith, (omega arith, tt)))
      raw_code_parsed

-- Frames of one message as they come in: no flag on the first ones.
abbrev arrived : Bool → List ℕ → Message
arrived complete bytes = record (a_message no_send plain_nego 1 complete []) { entity = bytes }

read_iter-delivers_example :
    (r : Message) × (read_iter plain_flate 2
        (merge_all (arrived false (1 ∷ [])) (arrived false (2 ∷ []) ∷ []))
      ≡ some r)
    × (flatten (merge_all r (arrived true (3 ∷ []) ∷ [])).receive.msg_pool ≡ 1 ∷ 2 ∷ 3 ∷ [])
    × ((merge_all r (arrived true (3 ∷ []) ∷ [])).receive.pool_closed ≡ true)
read_iter-delivers_example =
    read_iter-delivers plain_flate 2 (arrived false (1 ∷ [])) (arrived false (2 ∷ []) ∷ [])
      (arrived true (3 ∷ []) ∷ []) (omega arith) refl refl refl refl

read-merge_all_example :
    (read plain_flate (merge_all (arrived false (1 ∷ [])) (arrived true (2 ∷ []) ∷ []))).0
    ≡ (1 ∷ 2 ∷ [], none)
read-merge_all_example =
    read-merge_all plain_flate (arrived false (1 ∷ [])) (arrived true (2 ∷ []) ∷ []) refl refl refl
