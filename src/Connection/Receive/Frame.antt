-- ===== src/Connection/Receive/Frame.antt =====
-- connection.go: the receiver on a frame as `assemble` in message.go writes it.
use webson.Common.{
  ℕ, ◌^◌, ◌≤◌, ◌<◌, ◌≡◌, refl, sym, ap, ◌∙◌, Bool, true, false, ◌&&◌, if◌then◌else◌, List, [], ◌∷◌,
  ◌++◌, length, arith,
}
use mathlib.Core.List.{append_assoc}
use webson.Errors.{except_eof}
use webson.Message.{Message}
use webson.Message.Mask.{mask_key, mask_from, mask_payload, set_mask, mask_from_twice}
use webson.Message.Assemble.{stream_payload, first_byte, second_byte, extended_bytes}
use webson.Message.Assemble.Shape.{mask_field, sent_payload, frame_of, length-sent_payload}
use webson.Connection.{Connection}
use webson.Connection.Receive.{
  done, read_vessel, read_meta, read_size, read_mask, read_payload, read_frame, incoming, with_size,
  unmask,
}
use webson.Connection.Receive.Header.{IsAgreed, header_message, read_meta-header}
use webson.Connection.Receive.Steps.{
  with_buffer, read_vessel-buffered, read_size-buffered, read_mask-buffered,
}
use webson.Connection.Receive.Payload.{Carries, opened, read_payload-opened}
use webson.Reader.{Reader}

-- The message after the size, and after the mask.
abbrev pub sized_message : Connection → ℕ → Message → ℕ → Message
sized_message con now m n = with_size (header_message con now m n) n

abbrev pub keyed_message : Connection → ℕ → Message → ℕ → List ℕ → Message
keyed_message con now m n mask =
    if m.send.do_mask then set_mask (sized_message con now m n) mask else sized_message con now m n

-- Setting the mask changes nothing else, and the key undoes what it did.
keyed-receive :
    (b : Bool) (s : Message) (mask : List ℕ)
    → ((if b then set_mask s mask else s).receive ≡ s.receive)
      × ((if b then set_mask s mask else s).entity ≡ s.entity)
unfolding set_mask
keyed-receive true s mask = (refl, refl)
keyed-receive false s mask = (refl, refl)

unmask_flag :
    (m : Message) (p : List ℕ)
    → (m.receive.masked ≡ true → unmask m p ≡ mask_from m.mask 0 p)
      × (m.receive.masked ≡ false → unmask m p ≡ p)
unfolding unmask mask_payload
unmask_flag m p = (λ h. ground arith, λ h. ground arith)

unmask-keyed :
    (b : Bool) (s : Message) (mask key body : List ℕ)
    → s.receive.masked ≡ b
    → key ≡ mask_key s.config.extra_mask mask
    → unmask (if b then set_mask s mask else s) (if b then mask_from key 0 body else body) ≡ body
unmask-keyed true s mask key body h k =
    (unmask_flag (set_mask s mask) _).0 (unfold set_mask in h)
    ∙ ap (λ t. mask_from t 0 (mask_from key 0 body)) (sym (k ∙ (unfold set_mask in refl)))
    ∙ mask_from_twice key 0 body
unmask-keyed false s mask key body h k = (unmask_flag s body).1 h

-- The steps, one behind the other.
read_frame-steps :
    (con : Connection) (now : ℕ) (r : Reader) (header : List ℕ) (r1 r2 r3 : Reader)
    (m1 m2 m3 : Message) (z : Message × Bool × Reader)
    → read_vessel 2 except_eof r ≡ done (header, r1)
    → read_meta (incoming con now) header ≡ done m1
    → read_size m1 r1 ≡ done (m2, r2)
    → read_mask m2 r2 ≡ done (m3, r3)
    → read_payload con.config.max_payload_size m3 r3 ≡ done z
    → read_frame con now r ≡ done z
unfolding read_frame
read_frame-steps con now r header r1 r2 r3 m1 m2 m3 z p1 p2 p3 p4 p5 = rw (p1, p2, p3, p4, p5)

module _ (con : Connection) (now : ℕ) (m : Message) (mask packed : List ℕ) where
  abbrev body : List ℕ
  body = stream_payload m.send packed

  keyed-Carries :
      IsAgreed m (length body) con
      → (m.send.streamlize ≡ true → (1 ≤ m.send.stream_id) × (m.send.stream_id < 2 ^ 15))
      → m.config.extra_mask ≡ con.config.private_mask
      → Carries
          (keyed_message con now m (length body) mask)
          m.send
          packed
          (sent_payload m mask body)
  unfolding with_size incoming
  keyed-Carries a ids x =
      let s = sized_message con now m (length body) in
      let (receive, entity) = keyed-receive m.send.do_mask s mask in
      record {
        ids = ids;
        room = λ h. omega (arith, length-sent_payload m mask body, a.stream_room h);
        sized = ap (λ t. t.size) receive ∙ sym (length-sent_payload m mask body);
        flagged = ap (λ t. t.is_stream) receive;
        fresh = entity;
        unmasks = unmask-keyed m.send.do_mask s mask _ body refl (ap (λ t. mask_key t mask) x);
      }

  -- A frame as assemble writes it, with a type from 1 to 15, at most 125 bytes if it is a control
  -- frame, and a stream id from 1 to 32767 if it is on a stream, in the buffer of a receiver that
  -- agrees with the sender on compression, streams, masking and limits and whose buffer has room
  -- for its payload, and with any bytes behind it: the receiver reads exactly that frame, with its
  -- type, flags, stream id, cancel flag and the payload as it was before masking, and stops right
  -- behind it.
  pub read_frame-frame_of :
      (rest : List ℕ) (r : Reader)
      → IsAgreed m (length body) con
      → (m.send.streamlize ≡ true → (1 ≤ m.send.stream_id) × (m.send.stream_id < 2 ^ 15))
      → m.config.extra_mask ≡ con.config.private_mask
      → length mask ≡ 4
      → length body ≤ r.size
      → r.buffered ≡ frame_of m mask body ++ rest
      → read_frame con now r
        ≡ done (
          opened (keyed_message con now m (length body) mask) m.send packed,
          m.send.streamlize && m.send.cancel_stream,
          with_buffer rest r,
        )
  read_frame-frame_of rest r a ids x h k e =
      let n = length body in
      let key = mask_field m.send.do_mask mask in
      let sent = sent_payload m mask body in
      let tail1 : List ℕ = extended_bytes n ++ ((key ++ sent) ++ rest) in
      let tail2 : List ℕ = key ++ (sent ++ rest) in
      let front : r.buffered ≡ (first_byte m ∷ second_byte m.send.do_mask n ∷ []) ++ tail1 =
        e
        ∙ ap (λ t. first_byte m ∷ second_byte m.send.do_mask n ∷ t)
            (append_assoc (extended_bytes n) (key ++ sent) rest) in
      let middle : tail1 ≡ extended_bytes n ++ tail2 =
        ap (λ t. extended_bytes n ++ t) (append_assoc key sent rest) in
      let m2 = sized_message con now m n in
      let m3 = keyed_message con now m n mask in
      read_frame-steps con now r _ _ _ _ _ _ _ _
        (read_vessel-buffered 2 (first_byte m) (second_byte m.send.do_mask n ∷ []) tail1 except_eof
          r front refl)
        (read_meta-header m n con a now)
        (read_size-buffered n tail2 (header_message con now m n) (with_buffer tail1 r) refl
          a.size_word middle)
        (read_mask-buffered m.send.do_mask mask (sent ++ rest) m2 (with_buffer tail2 r)
          (unfold with_size in refl) h refl)
        (read_payload-opened con.config.max_payload_size m3 m.send packed sent rest
          (with_buffer (sent ++ rest) r) (keyed-Carries a ids x)
          (λ l. omega (arith, length-sent_payload m mask body, a.size_allowed l))
          (omega (arith, length-sent_payload m mask body)) refl)
