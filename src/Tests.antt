-- ===== src/Tests.antt =====
-- Examples of the theorems at concrete values, and small runs of the code. The data that they share.
mod Messages
mod Frames
mod Connections
mod Pools
mod Handshakes
mod Upgrades
mod Interleaving
mod Steps
mod Streamed
mod Streams
use webson.Common.{ℕ, Bool, true, false, List, [], ◌∷◌, Option, none, some, codes}
use webson.Errors.{Status, status_yet_ready, status_ready, eof}
use webson.Message.{Message, NegoSet, no_send, no_receive, MsgConfig, MessageType, MsgSendOptions}
use webson.Message.Assemble.{Flate}
use webson.Config.{Config, Timeout}
use webson.Connection.{Connection}
use webson.Handshake.{new_connection}
use webson.Reader.{Reader}

-- A compressor that puts four bytes behind its input.
abbrev pub plain_flate : Flate
plain_flate = record { deflate = λ level p. some p; inflate = λ z. (z, none) }

abbrev pub streams_nego : NegoSet
streams_nego = record {
  streamable = true;
  max_streams = 3;
  compressable = false;
  compress_level = 0;
}

abbrev pub plain_nego : NegoSet
plain_nego = record {
  streamable = false;
  max_streams = 0;
  compressable = false;
  compress_level = 0;
}

abbrev pub ready_config : Config
ready_config = record {
  enable_streams = true;
  max_streams = 3;
  chunk_size = 4096;
  buffer_size = 5120;
  max_payload_size = 0;
  trigger_on_start = true;
  synchronize = false;
  enable_compress = false;
  compress_level = 0;
  timeout = some (record { handshake_timeout = 10; pong_timeout = 5; close_timeout = 10 });
  ping_interval = 10;
  magic_key = none;
  private_mask = none;
  always_mask = false;
}

abbrev pub some_mask : ℕ → List ℕ
some_mask n = 1 ∷ 2 ∷ 3 ∷ 4 ∷ []

-- A connection that is ready.
abbrev pub a_connection : Bool → NegoSet → Connection
a_connection is_client nego = record {
  pending_streams = [];
  in_use_streams = [];
  last_stream = 0;
  stream_id_locked = false;
  is_client = is_client;
  status = status_ready;
  start_close = false;
  closed = false;
  last_ping = 0;
  last_pong = 0;
  config = ready_config;
  node = none;
  nego = nego;
  status_event_map = [];
  message_event_map = [];
  event_pool = [];
  raw_closed = false;
  raw_error = none;
  wire = [];
  calls = [];
  entropy = some_mask;
  drawn = 0;
}

abbrev pub a_message : MsgSendOptions → NegoSet → MessageType → Bool → List ℕ → Message
a_message send nego t complete p = record {
  send = send;
  receive = no_receive;
  config = record {
    negotiate = nego;
    extra_mask = none;
    trigger_on_start = true;
    synchronized = false;
  };
  is_complete = complete;
  mask = [];
  entity = [];
  payload = p;
  msg_type = t;
}

abbrev pub masked_stream : MsgSendOptions
masked_stream = record {
  do_compress = false;
  compress_level = 0;
  streamlize = true;
  stream_id = 2;
  cancel_stream = false;
  do_mask = true;
}

abbrev pub hello : List ℕ
hello = codes "hello"

abbrev pub a_reader : List ℕ → Reader
a_reader bytes = record { size = 5120; buffered = bytes; pending = []; ending = eof; behind = none }
