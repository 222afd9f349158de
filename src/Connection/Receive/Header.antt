-- ===== src/Connection/Receive/Header.antt =====
-- The reader's side of the two bytes in front of a frame.
use webson.Common.{
  ℕ, ◌/◌, ◌%◌, ◌^◌, ◌≤◌, ◌<◌, ◌≡◌, ap, ◌∙◌, true, false, ◌||◌, leb, ◌==◌, ◌≢◌, [], ◌∷◌, arith,
}
use webson.Message.{Message}
use webson.Message.Assemble.{first_byte, second_byte, size_byte}
use webson.Message.Meta.Rules.{IsAllowed, parse_meta-allowed}
use webson.Message.Meta.Header.{first_byte_lem, second_byte_lem, size_byte-lt}
use webson.Connection.{Connection}
use webson.Connection.Receive.{done, incoming, meta_result, read_meta}

-- What the two sides must agree on for a frame of `m` with `n` bytes behind the header: the type is
-- in the range of four bits and not 0, a control message has 125 bytes at most, compression and
-- streams were negotiated, a client masks, and the size is within the limits.
pub record IsAgreed (m : Message) (n : ℕ) (con : Connection) : Type 0 where
  pub type_pos : 0 < m.msg_type
  pub type_small : m.msg_type < 16
  pub control_fits : 8 ≤ m.msg_type → n ≤ 125
  pub compress_agreed : m.send.do_compress ≡ true → con.nego.compressable ≡ true
  pub stream_agreed : m.send.streamlize ≡ true → con.nego.streamable ≡ true
  pub client_masks : con.is_client ≡ false → m.send.do_mask ≡ true
  pub stream_room : m.send.streamlize ≡ true → 2 ≤ n
  pub size_word : n < 2 ^ 63
  pub size_allowed : con.config.max_payload_size ≢ 0 → n ≤ con.config.max_payload_size

-- What the receiver knows of the message then.
abbrev pub header_message : Connection → ℕ → Message → ℕ → Message
header_message con now m n = record start {
  msg_type = m.msg_type;
  is_complete = m.is_complete || leb 8 m.msg_type;
  receive = record receive {
    compressed = m.send.do_compress;
    is_stream = m.send.streamlize;
    masked = m.send.do_mask;
    size = size_byte n;
  };
}
  where
    start : Message
    start = incoming con now

    open start use {receive}

module _ (m : Message) (n : ℕ) (con : Connection) (a : IsAgreed m n con) where
  first_byte-fields :
      (first_byte m < 256)
      × (first_byte m % 16 ≡ m.msg_type)
      × (leb 128 (first_byte m) ≡ (m.is_complete || leb 8 m.msg_type))
      × ((first_byte m / 64 % 2 == 1) ≡ m.send.do_compress)
      × ((first_byte m / 32 % 2 == 1) ≡ m.send.streamlize)
      × (first_byte m / 16 % 2 ≡ 0)
  first_byte-fields = ground (arith, first_byte_lem m a.type_small)

  second_byte-fields :
      (second_byte m.send.do_mask n < 256)
      × (second_byte m.send.do_mask n % 128 ≡ size_byte n)
      × (leb 128 (second_byte m.send.do_mask n) ≡ m.send.do_mask)
  second_byte-fields = ground (arith, second_byte_lem m.send.do_mask n, size_byte-lt n)

  size_byte-room : m.send.streamlize ≡ true → 2 ≤ size_byte n
  unfolding size_byte
  size_byte-room h = ground (arith, a.stream_room h)

  size_byte-control : 8 ≤ m.msg_type → size_byte n ≤ 125
  unfolding size_byte
  size_byte-control h = ground (arith, a.control_fits h)

  header-IsAllowed :
      (now : ℕ) → IsAllowed (incoming con now) (first_byte m) (second_byte m.send.do_mask n)
  unfolding incoming
  header-IsAllowed now =
      let (small, kind, fin, z, s, r) = first_byte-fields in
      let (low, size, mask) = second_byte-fields in
      record {
        control_complete = λ h. ground arith;
        control_small = λ h. ground (arith, size_byte-control);
        no_final_continue = λ h. omega (arith, a.type_pos);
        compress_agreed = λ h. ground (arith, a.compress_agreed);
        stream_agreed = λ h. ground (arith, a.stream_agreed);
        no_rsv3 = r;
        client_masked = λ h. ground (arith, a.client_masks);
        room_for_stream = λ h. ground (arith, size_byte-room);
      }

  pub read_meta-header :
      (now : ℕ)
      → read_meta (incoming con now) (first_byte m ∷ second_byte m.send.do_mask n ∷ [])
        ≡ done (header_message con now m n)
  unfolding read_meta
  read_meta-header now =
      let (small, kind, fin, z, s, r) = first_byte-fields in
      let (low, size, mask) = second_byte-fields in
      let b0 = first_byte m in
      let b1 = second_byte m.send.do_mask n in
      let accepted = parse_meta-allowed (incoming con now) b0 b1 small low (header-IsAllowed now) in
      ap meta_result accepted ∙ rw (kind, fin, z, s, size, mask)
