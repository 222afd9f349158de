-- ===== src/Connection/Receive/Payload.antt =====
-- The payload of a frame, on the receiver's side.
use webson.Common.{
  ℕ, ◌+◌, ◌/◌, ◌%◌, ◌^◌, ◌≤◌, ◌<◌, ◌≡◌, sym, ap, ap₂, ◌∙◌, Bool, true, false, Bool-cases, inl, inr,
  ◌&&◌, if◌then◌else◌, ==_ne, ◌≢◌, List, Option, [], ◌∷◌, ◌++◌, none, length, drop, arith,
  drop-append_left, bit_and,
}
use webson.Common.Bits.{and_0x7f, or_0x80}
use webson.Common.Words.{big_endian, put_uint16}
use webson.Message.{Message, MsgSendOptions}
use webson.Message.Mask.{mask_payload, mask_from}
use webson.Message.Meta.{has_bit}
use webson.Message.Meta.Rules.{has_bit_80}
use webson.Message.Assemble.{stream_payload}
use webson.Connection.Receive.{
  done, ◌>>=◌, read_stream, stream_of, with_stream_id, open_payload, take_payload, payload_result,
  read_payload, unmask, store,
}
use webson.Connection.Receive.Steps.{with_buffer}
use webson.Reader
use webson.Reader.{Reader}
use webson.Reader.Laws.{peek-buffered}

-- The top byte of a stream id, with the flag of the stream.
abbrev top_byte : Bool → ℕ → ℕ
top_byte cancel i = i / 256 + (if cancel then 128 else 0)

top_byte_lem :
    (cancel : Bool) (i : ℕ)
    → i < 2 ^ 15
    → (bit_and (top_byte cancel i) 0x7f ≡ i / 256) × (has_bit (top_byte cancel i) 0x80 ≡ cancel)
top_byte_lem true i h = let b = top_byte true i in ground (arith, and_0x7f b, has_bit_80 b)
top_byte_lem false i h = let b = top_byte false i in ground (arith, and_0x7f b, has_bit_80 b)

stream_payload_lem :
    (o : MsgSendOptions) (packed : List ℕ)
    → o.streamlize ≡ true
    → o.stream_id < 2 ^ 15
    → stream_payload o packed ≡ top_byte o.cancel_stream o.stream_id ∷ (o.stream_id % 256) ∷ packed
unfolding stream_payload put_uint16
stream_payload_lem o packed s h = ground (arith, or_0x80 (o.stream_id % 65536 / 256 % 256))

plain_payload :
    (o : MsgSendOptions) (packed : List ℕ) → o.streamlize ≡ false → stream_payload o packed ≡ packed
unfolding stream_payload
plain_payload o packed s = ground arith

big_endian-halves : (i : ℕ) → big_endian (i / 256 ∷ (i % 256) ∷ []) ≡ i
unfolding big_endian
big_endian-halves i = omega arith

read_stream-id :
    (next : Option ℕ) (m : Message) (o : MsgSendOptions) (packed : List ℕ)
    → o.streamlize ≡ true
    → 1 ≤ o.stream_id
    → o.stream_id < 2 ^ 15
    → read_stream next m (stream_payload o packed)
      ≡ done (with_stream_id m o.stream_id, o.cancel_stream, packed)
unfolding read_stream stream_of
read_stream-id next m o packed s lo hi =
    let (low, flag) = top_byte_lem o.cancel_stream o.stream_id hi in
    rw (stream_payload_lem o packed s hi, read_stream)
      (rw (low, big_endian-halves o.stream_id, ==_ne o.stream_id 0 (omega arith), flag))

abbrev pub opened : Message → MsgSendOptions → List ℕ → Message
opened m o packed = record (if o.streamlize then with_stream_id m o.stream_id else m) {
  entity = packed;
}

open_payload_cases :
    (next : Option ℕ) (m : Message) (masked : List ℕ)
    → (m.receive.is_stream ≡ true
        → open_payload next m masked
          ≡ (read_stream next m (unmask m masked) >>= (λ p. done (store p))))
      × (m.receive.is_stream ≡ false
          → open_payload next m masked ≡ done (store (m, false, unmask m masked)))
unfolding open_payload
open_payload_cases next m masked = (λ h. ground arith, λ h. ground arith)

store_lem :
    (m : Message) (cancel : Bool) (packed : List ℕ)
    → m.entity ≡ []
    → store (m, cancel, packed) ≡ (record m { entity = packed }, cancel)
unfolding store
store_lem m cancel packed z = ap (λ t. (record m { entity = t ++ packed }, cancel)) z

-- What the receiver finds in the payload `masked` of a frame.
pub open_payload-opened :
    (next : Option ℕ) (m : Message) (o : MsgSendOptions) (packed masked : List ℕ)
    → (o.streamlize ≡ true → (1 ≤ o.stream_id) × (o.stream_id < 2 ^ 15))
    → m.receive.is_stream ≡ o.streamlize
    → m.entity ≡ []
    → unmask m masked ≡ stream_payload o packed
    → open_payload next m masked ≡ done (opened m o packed, o.streamlize && o.cancel_stream)
open_payload-opened next m o packed masked ids k z u = elim (Bool-cases o.streamlize) [
  | inl s ↦
      let (lo, hi) = ids s in
      (open_payload_cases next m masked).0 (k ∙ s)
      ∙ ap (λ t. read_stream next m t >>= (λ p. done (store p))) u
      ∙ ap (λ t. t >>= (λ p. done (store p))) (read_stream-id next m o packed s lo hi)
      ∙ ap done (
          store_lem (with_stream_id m o.stream_id) o.cancel_stream packed
            (unfold with_stream_id in z))
      ∙ rw s
  | inr s ↦
      (open_payload_cases next m masked).1 (k ∙ s)
      ∙ ap (λ t. done (store (m, false, t))) (u ∙ plain_payload o packed s)
      ∙ ap done (store_lem m false packed z)
      ∙ rw s
]

take_payload-buffered :
    (m : Message) (masked rest : List ℕ) (r : Reader)
    → m.receive.size ≡ length masked
    → length masked ≤ r.size
    → r.buffered ≡ masked ++ rest
    → take_payload m r
      ≡ (open_payload (Reader.next_byte r) m masked >>= (λ p. done (p.0, p.1, with_buffer rest r)))
unfolding take_payload
take_payload-buffered m masked rest r h k e =
    let peeked : Reader.peek m.receive.size r ≡ (masked, none, r) =
      ap (λ n. Reader.peek n r) h ∙ peek-buffered masked rest r e k in
    let after : Reader.discard (length masked) r ≡ with_buffer rest r =
      unfold Reader.discard in
      ap (λ t. with_buffer t r) (ap (drop (length masked)) e ∙ drop-append_left masked rest) in
    ap (payload_result m) peeked
    ∙ ap (λ t. open_payload (Reader.next_byte r) m masked >>= (λ p. done (p.0, p.1, t))) after

unmask-nil : (m : Message) → unmask m [] ≡ []
unfolding unmask mask_payload mask_from
unmask-nil m = ground arith

read_payload_empty :
    (limit : ℕ) (m : Message) (r : Reader)
    → m.receive.size ≡ 0
    → read_payload limit m r ≡ done (m, false, r)
unfolding read_payload
read_payload_empty limit m r h = ground arith

read_payload_take :
    (limit : ℕ) (m : Message) (r : Reader)
    → m.receive.size ≢ 0
    → (limit ≢ 0 → m.receive.size ≤ limit)
    → read_payload limit m r ≡ take_payload m r
unfolding read_payload
read_payload_take limit m r h k = ground arith

-- What stands between the header of a frame and what follows it.
pub record Carries (m : Message) (o : MsgSendOptions) (packed masked : List ℕ) : Type 0 where
  pub ids : o.streamlize ≡ true → (1 ≤ o.stream_id) × (o.stream_id < 2 ^ 15)
  pub room : o.streamlize ≡ true → 2 ≤ length masked
  pub sized : m.receive.size ≡ length masked
  pub flagged : m.receive.is_stream ≡ o.streamlize
  pub fresh : m.entity ≡ []
  pub unmasks : unmask m masked ≡ stream_payload o packed

opened-nil :
    (m : Message) (o : MsgSendOptions) (packed : List ℕ)
    → o.streamlize ≡ false
    → m.entity ≡ []
    → packed ≡ []
    → opened m o packed ≡ m
opened-nil m o packed s z p = rw (s, p, ← z)

pub read_payload-opened :
    (limit : ℕ) (m : Message) (o : MsgSendOptions) (packed masked rest : List ℕ) (r : Reader)
    → Carries m o packed masked
    → (limit ≢ 0 → length masked ≤ limit)
    → length masked ≤ r.size
    → r.buffered ≡ masked ++ rest
    → read_payload limit m r
      ≡ done (opened m o packed, o.streamlize && o.cancel_stream, with_buffer rest r)
read_payload-opened limit m o packed [] rest r c l k e = elim (Bool-cases o.streamlize) [
  | inl s ↦ absurd (omega (arith, c.room s))
  | inr s ↦
      let none_left : packed ≡ [] = sym (plain_payload o packed s) ∙ sym c.unmasks ∙ unmask-nil m in
      read_payload_empty limit m r c.sized
      ∙ ap₂ (λ t u. done (t, false, u)) (sym (opened-nil m o packed s c.fresh none_left))
          (ap (λ t. with_buffer t r) e)
      ∙ rw s
]
read_payload-opened limit m o packed (b ∷ bs) rest r c l k e =
    read_payload_take limit m r (omega (arith, c.sized)) (λ h. omega (arith, c.sized, l h))
    ∙ take_payload-buffered m (b ∷ bs) rest r c.sized k e
    ∙ ap (λ t. t >>= (λ p. done (p.0, p.1, with_buffer rest r)))
        (open_payload-opened (Reader.next_byte r) m o packed (b ∷ bs) c.ids c.flagged c.fresh
          c.unmasks)
