-- ===== src/Tests/Frames.antt =====
-- A frame on its way from one connection to another.
use webson.Common.{
  flatten, map, Bool, ℕ, ◌+◌, ◌≤◌, ◌≡◌, refl, true, false, List, [], ◌∷◌, ◌++◌, none, length, arith,
}
use webson.Tests.{
  plain_nego, ready_config, plain_flate, streams_nego, some_mask, a_connection, a_message,
  masked_stream, hello, a_reader,
}
use webson.Message.{Message}
use webson.Message.Assemble.{stream_payload}
use webson.Message.Assemble.Shape.{frame_of}
use webson.Common.Words.{put_uint16}
use webson.Connection.{Connection}
use webson.Connection.Receive.{done, read_frame}
use webson.Connection.Receive.Header.{IsAgreed}
use webson.Connection.Receive.Steps.{with_buffer}
use webson.Connection.Receive.Payload.{opened}
use webson.Connection.Receive.Frame.{keyed_message, read_frame-frame_of}
use webson.Connection.Receive.Total.{left, read_frame-left}
use webson.Connection.Start.{start, serve}
use webson.Connection.Start.Frames.{Sent, Arrives, deliver_sent, bytes_of, serve-deliver_sent}
use webson.Connection.Receive.Reassembly.{
  IsPart, deliver_all, handed_over, IsWhole, deliver_all-handed_over,
}
use webson.Connection.{lookup}
use webson.Connection.Streams.{send_options}
use webson.Connection.Write.{dispatch, dispatched}
use webson.Connection.Transfer.Sequence.{IsTransfer}
use webson.Connection.Transfer.Linked.{IsLinked}
use webson.Connection.Transfer.Whole.{wire_frames, dispatch-IsTransfer}
use webson.Message.{is_control, no_send}
use webson.Connection.Start.Total.{Ends, start-Ends}
use webson.Reader.{Reader, read, peek, discard, remaining}
use webson.Reader.Laws.{read-remaining, peek-discard}

abbrev sent_message : Message
sent_message = a_message masked_stream streams_nego 1 true hello

abbrev receiver : Connection
receiver = a_connection false streams_nego

abbrev hello_body : List ℕ
hello_body = stream_payload masked_stream hello

hello_size : length hello_body ≡ 7
unfolding stream_payload put_uint16
hello_size = refl

agreed : IsAgreed sent_message (length hello_body) receiver
agreed = record {
  type_pos = omega arith;
  type_small = omega arith;
  control_fits = λ h. absurd (omega arith);
  compress_agreed = λ h. absurd cc;
  stream_agreed = λ h. refl;
  client_masks = λ h. refl;
  stream_room = λ h. omega (arith, hello_size);
  size_word = omega (arith, hello_size);
  size_allowed = λ h. absurd (h refl);
}

abbrev network : Reader
network = a_reader (frame_of sent_message (some_mask 0) hello_body ++ (7 ∷ []))

read_frame-frame_of_example :
    read_frame receiver 0 network
    ≡ done (
      opened
          (keyed_message receiver 0 sent_message (length hello_body) (some_mask 0))
          masked_stream
          hello,
      false,
      with_buffer (7 ∷ []) network,
    )
read_frame-frame_of_example =
    read_frame-frame_of receiver 0 sent_message (some_mask 0) hello (7 ∷ []) network agreed
      (λ h. (omega arith, omega arith)) refl refl (omega (arith, hello_size)) refl

read_frame-left_example : left (with_buffer (7 ∷ []) network) + 2 ≤ left network
read_frame-left_example = read_frame-left receiver 0 network _ false _ read_frame-frame_of_example

start-Ends_example : Ends (start plain_flate (λ n. n) receiver network)
start-Ends_example = start-Ends plain_flate (λ n. n) receiver network

abbrev pieces : Reader
pieces = record (a_reader (1 ∷ 2 ∷ [])) { pending = (3 ∷ 4 ∷ []) ∷ (5 ∷ []) ∷ [] }

read-remaining_example : (read 4 pieces).0 ++ remaining (read 4 pieces).2 ≡ remaining pieces
read-remaining_example = read-remaining 4 pieces

peek_shows : (peek 4 pieces).1 ≡ none
unfolding peek
peek_shows = refl

peek-discard_example :
    (length (peek 4 pieces).0 ≡ 4)
    × ((peek 4 pieces).0 ++ remaining (discard 4 (peek 4 pieces).2) ≡ remaining pieces)
peek-discard_example = peek-discard 4 pieces peek_shows

abbrev hello_sent : Sent
hello_sent = record { msg = sent_message; mask = some_mask 0; packed = hello }

hello-Arrives : Arrives receiver 5120 hello_sent
hello-Arrives = record {
  agreed = agreed;
  ids = λ h. (omega arith, omega arith);
  same_mask = refl;
  four_bytes = refl;
  fits = omega (arith, hello_size);
  data_frame = omega arith;
}

abbrev two_frames : Reader
two_frames = a_reader (flatten (map bytes_of (hello_sent ∷ hello_sent ∷ [])) ++ (7 ∷ []))

serve-deliver_sent_example :
    serve (2 + 3) plain_flate (λ n. n) 0 receiver two_frames
    ≡ serve 3 plain_flate
        (λ n. n)
        2
        (deliver_sent (λ n. n) 0 (hello_sent ∷ hello_sent ∷ []) receiver)
        (with_buffer (7 ∷ []) two_frames)
serve-deliver_sent_example =
    serve-deliver_sent 3 plain_flate (λ n. n) 0 receiver two_frames (hello_sent ∷ hello_sent ∷ [])
      (7 ∷ []) (hello-Arrives, (hello-Arrives, tt)) refl

-- A receiver whose handlers wait for the whole message.
abbrev pub waiting : Connection
waiting = record (a_connection false plain_nego) {
  config = record ready_config { trigger_on_start = false };
}

abbrev part : Bool → List ℕ → Message
part complete bytes = record (a_message no_send plain_nego 1 complete []) { entity = bytes }

part-IsPart : (b : Bool) (bytes : List ℕ) → IsPart 0 b (part b bytes)
unfolding is_control
part-IsPart b bytes = record { data_frame = refl; of_stream = refl; flag = refl }

none_pending : lookup 0 waiting.pending_streams ≡ none
unfolding lookup
none_pending = refl

deliver_all-handed_over_example :
    (m : Message) × (deliver_all
        (part false (1 ∷ []) ∷ part false (2 ∷ []) ∷ part true (3 ∷ []) ∷ [])
        waiting
      ≡ handed_over 0 m waiting)
    × IsWhole (part false (1 ∷ [])) (part false (2 ∷ []) ∷ part true (3 ∷ []) ∷ []) m
    × (lookup 0 (handed_over 0 m waiting).pending_streams ≡ none)
deliver_all-handed_over_example =
    deliver_all-handed_over 0 (part false (1 ∷ [])) (part false (2 ∷ []) ∷ []) (part true (3 ∷ []))
      waiting refl none_pending (part-IsPart false (1 ∷ [])) (part-IsPart false (2 ∷ []), tt)
      (part-IsPart true (3 ∷ [])) refl

abbrev pub sender : Connection
sender = a_connection true plain_nego

linked : IsLinked 1 hello sender waiting 5120
unfolding send_options lookup
linked = record {
  type_pos = omega arith;
  data_type = omega arith;
  no_stream = refl;
  no_compress = refl;
  chunks = omega arith;
  fits = omega arith;
  small = omega arith;
  allowed = λ h. absurd (h refl);
  roles = λ h. refl;
  same_mask = refl;
  waits = refl;
  idle = refl;
  writable = record { ready = refl; raw_open = refl; raw_works = refl; masks = λ n. refl };
}

abbrev hello_reader : Reader
hello_reader = a_reader (flatten (wire_frames 1 hello sender) ++ (7 ∷ []))

dispatch-IsTransfer_example :
    (left : List ℕ) × (con' rc' : Connection) × (dispatch plain_flate 1 hello sender
      ≡ dispatched none left con')
    × (con'.wire ≡ wire_frames 1 hello sender)
    × (serve (length (wire_frames 1 hello sender) + 3) plain_flate (λ n. n) 0 waiting hello_reader
        ≡ serve 3 plain_flate
            (λ n. n)
            (0 + length (wire_frames 1 hello sender))
            rc'
            (with_buffer (7 ∷ []) hello_reader))
    × IsTransfer 0 hello waiting rc'
dispatch-IsTransfer_example =
    dispatch-IsTransfer plain_flate 1 hello sender waiting hello_reader (7 ∷ []) 3 (λ n. n) 0 linked
      refl
