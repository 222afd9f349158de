-- ===== src/Tests/Connections.antt =====
-- Configurations, stream ids, the status, and what a connection writes.
use webson.Common.{ℕ, ◌≤◌, ◌≡◌, ◌↔◌, refl, true, false, [], ◌∷◌, none, arith}
use webson.Tests.{
  plain_flate, streams_nego, plain_nego, ready_config, some_mask, a_connection, hello,
}
use webson.Message.{Message}
use webson.Errors.{new_error, ok}
use webson.Message.{is_control}
use webson.Config.{Config, setup}
use webson.Config.Bounds.{IsReady, IsMask, setup-IsReady, setup-ready, setup-accepts}
use webson.Connection.{Connection}
use webson.Connection.Streams.{
  find_id, in_use, patch_msg, refused, blocks, send_options, take_id, search_id,
}
use webson.Connection.Streams.Alloc.{IdsOk, IsSearch, find_id-IsSearch}
use webson.Connection.Streams.Patch.{TakesId, patch_msg-TakesId, patch_msg-refused-blocks, prepared}
use webson.Connection.Write.{dispatch, dispatched, new_message}
use webson.Connection.Write.Frames.{IsWritable, left_behind, after_frames}
use webson.Connection.Write.Wire.{outgoing_frames, dispatch_lem}
use webson.Connection.Ping.{Round, keep_ping, ping_rounds}
use webson.Connection.Ping.Unanswered.{keep_ping-unanswered}

pub ready_config-IsReady : IsReady ready_config
ready_config-IsReady = record {
  streams_fit = omega arith;
  streams_off = λ h. absurd cc;
  streams_on = λ h. omega arith;
  mask_usable = tt;
  chunk_large = omega arith;
  buffer_set = omega arith;
  timeouts_set = λ h. cc;
  pings = omega arith;
}

ready_setup : setup ready_config ≡ ok ready_config
ready_setup = setup-ready ready_config ready_config-IsReady

setup-IsReady_example : IsReady ready_config
setup-IsReady_example = setup-IsReady ready_config ready_config ready_setup

setup-accepts_example :
    ((true ≡ true → 3 ≤ 32768) × IsMask none) ↔ ((d : Config) × (setup ready_config ≡ ok d))
setup-accepts_example = setup-accepts ready_config

find_id-IsSearch_example : IsSearch 3 (1 ∷ 2 ∷ []) 1 (find_id 4 3 (1 ∷ 2 ∷ []) 1 false)
find_id-IsSearch_example =
    find_id-IsSearch 4 3 (1 ∷ 2 ∷ []) 1 (omega arith) (omega arith) (omega arith)

abbrev client : Connection
client = record (a_connection true streams_nego) { in_use_streams = 1 ∷ []; last_stream = 1 }

client-IdsOk : IdsOk client
unfolding in_use
client-IdsOk = record {
  some_ids = omega arith;
  last_ok = omega arith;
  in_range = λ i h. ground arith;
  distinct = (refl, tt);
}

abbrev text : Message
text = new_message 1 hello client

text_data : is_control text ≡ false
unfolding is_control
text_data = refl

patch_msg-TakesId_example : TakesId text client (patch_msg text client)
patch_msg-TakesId_example = patch_msg-TakesId text client client-IdsOk refl text_data refl

-- All the ids are out.
abbrev full_client : Connection
full_client = record (a_connection true streams_nego) {
  in_use_streams = 3 ∷ 2 ∷ 1 ∷ [];
  last_stream = 3;
}

abbrev stuck_client : Connection
stuck_client = record full_client { last_stream = 1; stream_id_locked = true }

full_refuses :
    patch_msg text full_client
    ≡ refused (new_error "stream ids spent") (prepared text full_client) stuck_client
unfolding patch_msg take_id search_id find_id send_options in_use is_control
full_refuses = refl

patch_msg-refused-blocks_example : patch_msg text stuck_client ≡ blocks
patch_msg-refused-blocks_example =
    patch_msg-refused-blocks text full_client (new_error "stream ids spent")
      (prepared text full_client) stuck_client text full_refuses text_data

abbrev plain_client : Connection
plain_client = a_connection true plain_nego

abbrev plain_server : Connection
plain_server = a_connection false plain_nego

plain_client-IsWritable : IsWritable plain_client
plain_client-IsWritable = record {
  ready = refl;
  raw_open = refl;
  raw_works = refl;
  masks = λ n. refl;
}

no_stream : (send_options plain_client (new_message 1 hello plain_client)).streamlize ≡ false
unfolding send_options
no_stream = refl

no_compress : (send_options plain_client (new_message 1 hello plain_client)).do_compress ≡ false
unfolding send_options
no_compress = refl

dispatch_lem_example :
    dispatch plain_flate 1 hello plain_client
    ≡ dispatched none
        (left_behind some_mask 0 (outgoing_frames 1 hello plain_client))
        (after_frames (outgoing_frames 1 hello plain_client) plain_client)
dispatch_lem_example =
    dispatch_lem plain_flate 1 hello plain_client no_stream no_compress (omega arith)
      plain_client-IsWritable

-- A round in which nothing comes.
abbrev silent_round : ℕ → Round
silent_round now = record { now = now; meanwhile = λ con. con }

keep_ping-unanswered_example :
    (keep_ping plain_flate 5 (silent_round 10 ∷ silent_round 200 ∷ []) false plain_client ≡ (
      true,
      false,
      ping_rounds plain_flate (silent_round 10 ∷ silent_round 200 ∷ []) plain_client,
    ))
    × ((ping_rounds plain_flate (silent_round 10 ∷ silent_round 200 ∷ []) plain_client).last_pong
        ≡ plain_client.last_pong)
keep_ping-unanswered_example =
    keep_ping-unanswered plain_flate 5 (silent_round 10 ∷ silent_round 200 ∷ []) plain_client
      (λ con. (refl, refl), (λ con. (refl, refl), tt)) (omega arith, (omega arith, tt))
