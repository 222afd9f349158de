-- ===== src/Config.antt =====
-- config.go and const.go: the options of a connection, and `setup`, which completes them. Sizes and
-- times are natural numbers: a negative setting is not modelled.
pub mod Bounds
use webson.Common.{
  ℕ, zero, ◌/◌, ◌%◌, ◌≡◌, Bool, true, false, not, ◌&&◌, ◌||◌, if◌then◌else◌, ltb, ◌==◌, List,
  Option, none, some, length,
}
use webson.Errors.{Error, new_error, Result, ok, err, ◌>>=◌}

abbrev pub default_timeout : ℕ
default_timeout = 10

abbrev pub default_chunk_size : ℕ
default_chunk_size = 4096

abbrev pub default_buffer_size : ℕ
default_buffer_size = 5120

abbrev pub max_streams_in_theory : ℕ
max_streams_in_theory = 32768

abbrev pub default_max_streams : ℕ
default_max_streams = 1024

abbrev pub default_compress_level : ℕ
default_compress_level = 1

pub record Timeout : Type 0 where
  pub handshake_timeout : ℕ
  pub pong_timeout : ℕ
  pub close_timeout : ℕ

pub record NodeConfig : Type 0 where
  pub name : List ℕ
  pub group : List ℕ

-- `HeaderVerify` belongs to the handshake. A nil slice or pointer is `none`.
pub record Config : Type 0 where
  pub enable_streams : Bool
  pub max_streams : ℕ
  pub chunk_size : ℕ
  pub buffer_size : ℕ
  pub max_payload_size : ℕ
  pub trigger_on_start : Bool
  pub synchronize : Bool
  pub enable_compress : Bool
  pub compress_level : ℕ
  pub timeout : Option Timeout
  pub ping_interval : ℕ
  pub magic_key : Option (List ℕ)
  pub private_mask : Option (List ℕ)
  pub always_mask : Bool

unfoldable pub effective_streams : Config → ℕ
effective_streams c =
    if not c.enable_streams
    then 0
    else if c.max_streams == 0
    then default_max_streams
    else c.max_streams

-- The first three statements of `setup`.
unfoldable pub setup_streams : Config → Result Config
unfolding effective_streams
setup_streams c =
    if ltb max_streams_in_theory (effective_streams c)
    then err (new_error "stream size exceed max")
    else ok (record c { max_streams = effective_streams c })

unfoldable pub check_private_mask : Config → Result Config
check_private_mask c = elim c.private_mask [
  | none ↦ ok c
  | some mask ↦
      if (length mask == 0) || not (length mask % 4 == 0)
      then err (new_error "PrivateMask size is not multlply of 4")
      else ok c
]

abbrev pub default_timeouts : Timeout
default_timeouts = record {
  handshake_timeout = default_timeout;
  pong_timeout = default_timeout / 2;
  close_timeout = default_timeout;
}

-- The rest of `setup`: sizes and times that are not set, or a chunk that is too small.
unfoldable pub setup_sizes : Config → Config
setup_sizes c = record c {
  chunk_size = if ltb chunk_size default_chunk_size then default_chunk_size else chunk_size;
  buffer_size = if buffer_size == 0 then default_buffer_size else buffer_size;
  timeout = elim timeout [ none ↦ some default_timeouts | some t ↦ some t ];
  ping_interval = if ping_interval == 0 then default_timeout else ping_interval;
}
  where
    open c use {chunk_size, buffer_size, timeout, ping_interval}

unfoldable pub setup : Config → Result Config
unfolding setup_streams check_private_mask setup_sizes
setup c = do c1 ← setup_streams c; c2 ← check_private_mask c1; ok (setup_sizes c2)
