-- ===== src/Message.antt =====
-- message.go: the message types, the close codes, and the state of one message.
pub mod Close
pub mod Mask
pub mod Assemble
pub mod Meta
pub mod Split
pub mod Collect
use webson.Common.{ℕ, Bool, false, ◌==◌, leb, List, [], Option, none, some}

abbrev pub MessageType : Type 0
MessageType = ℕ

abbrev pub text_message : MessageType
text_message = 1

abbrev pub binary_message : MessageType
binary_message = 2

abbrev pub close_message : MessageType
close_message = 8

abbrev pub ping_message : MessageType
ping_message = 9

abbrev pub pong_message : MessageType
pong_message = 10

-- const.go: two bytes in front of a payload carry the stream id.
abbrev pub stream_bytes : ℕ
stream_bytes = 2

pub record CloseCode : Type 0 where
  pub code : ℕ
  pub reason : List ℕ

pub record NegoSet : Type 0 where
  pub streamable : Bool
  pub max_streams : ℕ
  pub compressable : Bool
  pub compress_level : ℕ

pub record MsgConfig : Type 0 where
  pub negotiate : NegoSet
  pub extra_mask : Option (List ℕ)
  pub trigger_on_start : Bool
  pub synchronized : Bool

pub record MsgSendOptions : Type 0 where
  pub do_compress : Bool
  pub compress_level : ℕ
  pub streamlize : Bool
  pub stream_id : ℕ
  pub cancel_stream : Bool
  pub do_mask : Bool

-- `msg_pool` is the channel of `ReadIter`: what was sent on it so far, and whether it is closed.
pub record MsgReceivedStatus : Type 0 where
  pub compressed : Bool
  pub is_stream : Bool
  pub stream_id : ℕ
  pub size : ℕ
  pub masked : Bool
  pub is_from_client : Bool
  pub pool_reading : Bool
  pub msg_pool : List (List ℕ)
  pub pool_closed : Bool
  pub created_at : ℕ
  pub updated_at : ℕ

pub record Message : Type 0 where
  pub send : MsgSendOptions
  pub receive : MsgReceivedStatus
  pub config : MsgConfig
  pub is_complete : Bool
  pub mask : List ℕ
  pub entity : List ℕ
  pub payload : List ℕ
  pub msg_type : MessageType

-- Go's zero values.
abbrev pub no_send : MsgSendOptions
no_send = record {
  do_compress = false;
  compress_level = 0;
  streamlize = false;
  stream_id = 0;
  cancel_stream = false;
  do_mask = false;
}

abbrev pub no_receive : MsgReceivedStatus
no_receive = record {
  compressed = false;
  is_stream = false;
  stream_id = 0;
  size = 0;
  masked = false;
  is_from_client = false;
  pool_reading = false;
  msg_pool = [];
  pool_closed = false;
  created_at = 0;
  updated_at = 0;
}

unfoldable pub is_control : Message → Bool
is_control m = leb 8 m.msg_type

-- The message that `DispatchReader` fills for each chunk: type and options are shared.
unfoldable pub spawn_vessel : Message → Message
spawn_vessel m = record {
  send = m.send;
  receive = no_receive;
  config = m.config;
  is_complete = false;
  mask = [];
  entity = [];
  payload = [];
  msg_type = m.msg_type;
}
