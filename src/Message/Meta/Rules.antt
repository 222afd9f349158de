-- ===== src/Message/Meta/Rules.antt =====
-- Which headers `parseMeta` accepts, as rules on the numbers of the two bytes.
use webson.Common.{ℕ, ◌/◌, ◌%◌, ◌≤◌, ◌<◌, ◌≡◌, true, leb, ◌==◌, none, arith}
use webson.Common.Bits.{and_0x80, and_0x40, and_0x20, and_0x10, and_0x0f, and_0x7f}
use webson.Message.{Message}
use webson.Message.Meta.{has_bit, meta_guard, meta_fields, check_stream_size, parse_meta}

-- A bit of a byte is set.
pub has_bit_80 : (b : ℕ) → b < 256 → has_bit b 128 ≡ leb 128 b
unfolding has_bit
has_bit_80 b h = ground (arith, and_0x80 b h)

pub has_bit_40 : (b : ℕ) → b < 256 → has_bit b 64 ≡ (b / 64 % 2 == 1)
unfolding has_bit
has_bit_40 b h = ground (arith, and_0x40 b h)

pub has_bit_20 : (b : ℕ) → b < 256 → has_bit b 32 ≡ (b / 32 % 2 == 1)
unfolding has_bit
has_bit_20 b h = ground (arith, and_0x20 b h)

pub has_bit_10 : (b : ℕ) → b < 256 → has_bit b 16 ≡ (b / 16 % 2 == 1)
unfolding has_bit
has_bit_10 b h = ground (arith, and_0x10 b h)

-- The rules of a header: opcode `b0 % 16`, fin 128, rsv1 to rsv3 64, 32 and 16, mask 128 and size.
pub record IsAllowed (m : Message) (b0 b1 : ℕ) : Type 0 where
  pub control_complete : 8 ≤ b0 % 16 → 128 ≤ b0
  pub control_small : 8 ≤ b0 % 16 → b1 % 128 ≤ 125
  pub no_final_continue : 128 ≤ b0 → 0 < b0 % 16
  pub compress_agreed : b0 / 64 % 2 ≡ 1 → m.config.negotiate.compressable ≡ true
  pub stream_agreed : b0 / 32 % 2 ≡ 1 → m.config.negotiate.streamable ≡ true
  pub no_rsv3 : b0 / 16 % 2 ≡ 0
  pub client_masked : m.receive.is_from_client ≡ true → 128 ≤ b1
  pub room_for_stream : b0 / 32 % 2 ≡ 1 → 2 ≤ b1 % 128

-- A header of two bytes that parseMeta accepts keeps all the rules: control frames are final and
-- short, a final frame has an opcode that is not 0, compression and streams were negotiated, rsv3
-- is clear, a client masks, and a stream frame has room for its id.
pub parse_meta-accepts :
    (m : Message) (b0 b1 : ℕ)
    → b0 < 256
    → b1 < 256
    → (parse_meta m b0 b1).0 ≡ none
    → IsAllowed m b0 b1
unfolding parse_meta meta_guard meta_fields check_stream_size
parse_meta-accepts m b0 b1 h0 h1 e = ground (
  arith,
  has_bit_80 b0 h0,
  has_bit_40 b0 h0,
  has_bit_20 b0 h0,
  has_bit_10 b0 h0,
  has_bit_80 b1 h1,
  and_0x0f b0 h0,
  and_0x7f b1 h1,
)

-- The message that an accepted header leaves.
abbrev pub with_header : Message → ℕ → ℕ → Message
with_header m b0 b1 = record m {
  msg_type = b0 % 16;
  is_complete = leb 128 b0;
  receive = record receive {
    compressed = b0 / 64 % 2 == 1;
    is_stream = b0 / 32 % 2 == 1;
    masked = leb 128 b1;
    size = b1 % 128;
  };
}
  where
    open m use {receive}

meta_fields_lem :
    (m : Message) (b0 b1 : ℕ) → b0 < 256 → b1 < 256 → meta_fields m b0 b1 ≡ with_header m b0 b1
unfolding meta_fields
meta_fields_lem m b0 b1 h0 h1 = rw (
  has_bit_80 b0 h0,
  has_bit_40 b0 h0,
  has_bit_20 b0 h0,
  has_bit_80 b1 h1,
  and_0x0f b0 h0,
  and_0x7f b1 h1,
)

meta_guard-allowed :
    (m : Message) (b0 b1 : ℕ) → b0 < 256 → b1 < 256 → IsAllowed m b0 b1 → meta_guard m b0 b1 ≡ none
unfolding meta_guard
meta_guard-allowed m b0 b1 h0 h1 r = ground (
  arith,
  has_bit_80 b0 h0,
  has_bit_40 b0 h0,
  has_bit_20 b0 h0,
  has_bit_10 b0 h0,
  has_bit_80 b1 h1,
  and_0x0f b0 h0,
  and_0x7f b1 h1,
)

check_stream_size-allowed :
    (m : Message) (b0 b1 : ℕ) → IsAllowed m b0 b1 → check_stream_size (with_header m b0 b1) ≡ none
unfolding check_stream_size
check_stream_size-allowed m b0 b1 r = ground (arith, r.room_for_stream)

-- A header of two bytes that keeps all the rules is accepted, and its fields are those of the
-- bytes.
pub parse_meta-allowed :
    (m : Message) (b0 b1 : ℕ)
    → b0 < 256
    → b1 < 256
    → IsAllowed m b0 b1
    → parse_meta m b0 b1 ≡ (none, with_header m b0 b1)
unfolding parse_meta
parse_meta-allowed m b0 b1 h0 h1 r =
    rw (meta_guard-allowed m b0 b1 h0 h1 r, parse_meta, meta_fields_lem m b0 b1 h0 h1)
      (rw (check_stream_size-allowed m b0 b1 r))
