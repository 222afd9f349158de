-- ===== src/Handshake.antt =====
-- client.go, server.go and utils.go: the upgrade of an HTTP connection. The hash of `magicDigest` and
-- the random bytes are parameters.
pub mod Decimal
pub mod Url
pub mod Server
pub mod Client
pub mod Agreement
pub mod Fields
pub mod Lines
pub mod Request
pub mod Answer
pub mod Dial
pub mod Whole
use webson.Common.{
  ℕ, zero, suc, ◌+◌, ◌-◌, Bool, true, false, not, ◌&&◌, ◌||◌, if◌then◌else◌, ltb, leb, ◌==◌,
  bytes_eq, codes, List, [], ◌∷◌, ◌++◌, Option, none, some,
}
use webson.Errors.{status_yet_ready}
use webson.Message.{NegoSet}
use webson.Config.{Config}
use webson.Connection.{Connection, prepare}

-- The header fields: what `http.Header.Get` returns, and `http.Header.Values`.
pub record Header : Type 0 where
  pub get : List ℕ → List ℕ
  pub values : List ℕ → List (List ℕ)

abbrev pub max_streams_key : List ℕ
max_streams_key = codes "Webson-Max-Streams"

abbrev pub extensions_key : List ℕ
extensions_key = codes "Sec-Websocket-Extensions"

abbrev pub accept_key : List ℕ
accept_key = codes "Sec-Websocket-Accept"

abbrev pub deflate_extension : List ℕ
deflate_extension =
    codes "permessage-deflate; server_no_context_takeover; client_no_context_takeover"

abbrev pub default_magic_key : List ℕ
default_magic_key = codes "258EAFA5-E914-47DA-95CA-C5AB0DC85B11"

-- `digest` is SHA-1 and base64, on the bytes that were written to the hash.
unfoldable pub magic_digest : (List ℕ → List ℕ) → List ℕ → Option (List ℕ) → List ℕ
magic_digest digest challenge magic =
    digest (challenge ++ elim magic [ none ↦ default_magic_key | some key ↦ key ])

-- The connection that `Dial` and `TakeOver` return.
unfoldable pub new_connection : Bool → Config → NegoSet → (ℕ → List ℕ) → Connection
unfolding prepare
new_connection is_client config nego entropy = prepare (record {
  pending_streams = [];
  in_use_streams = [];
  last_stream = 0;
  stream_id_locked = false;
  is_client = is_client;
  status = status_yet_ready;
  start_close = false;
  closed = false;
  last_ping = 0;
  last_pong = 0;
  config = config;
  node = none;
  nego = nego;
  status_event_map = [];
  message_event_map = [];
  event_pool = [];
  raw_closed = false;
  raw_error = none;
  wire = [];
  calls = [];
  entropy = entropy;
  drawn = 0;
})
