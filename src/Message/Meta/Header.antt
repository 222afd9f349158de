-- ===== src/Message/Meta/Header.antt =====
-- The two bytes that `assemble` writes, as `parseMeta` reads them.
use webson.Common.{
  ℕ, ◌+◌, ◌*◌, ◌/◌, ◌%◌, ◌<◌, ◌≡◌, Bool, true, false, ◌||◌, if◌then◌else◌, leb, arith,
}
use webson.Common.Bits.{or_0x80, or_0x40, or_0x20, zero-bit_or, mask_bit-bit_or}
use webson.Message.{Message}
use webson.Message.Assemble.{first_byte, second_byte, size_byte}

-- The first byte holds the type and the flags of the message.
pub first_byte_lem :
    (m : Message)
    → m.msg_type < 16
    → first_byte m
      ≡ m.msg_type
        + (if m.is_complete || leb 8 m.msg_type then 128 else 0)
        + (if m.send.do_compress then 64 else 0)
        + (if m.send.streamlize then 32 else 0)
unfolding first_byte
first_byte_lem m h =
    let t = m.msg_type % 256 in
    ground (
      arith,
      or_0x80 t,
      or_0x40 t,
      or_0x40 (t % 128 + 128),
      or_0x20 t,
      or_0x20 (t % 128 + 128),
      or_0x20 (t / 128 * 128 + 64 + t % 64),
      or_0x20 ((t % 128 + 128) / 128 * 128 + 64 + (t % 128 + 128) % 64),
    )

pub size_byte-lt : (size : ℕ) → size_byte size < 128
unfolding size_byte
size_byte-lt size = ground arith

pub second_byte_lem :
    (do_mask : Bool) (size : ℕ)
    → second_byte do_mask size ≡ (if do_mask then 128 else 0) + size_byte size
unfolding second_byte
second_byte_lem true size = omega (arith, mask_bit-bit_or (size_byte size) (size_byte-lt size))
second_byte_lem false size = omega (arith, zero-bit_or (size_byte size) (size_byte-lt size))
