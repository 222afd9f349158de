-- ===== src/Connection/Receive/Total.antt =====
-- connection.go: how much of the network a frame takes.
use webson.Common.{
  ℕ, ◌+◌, ◌≤◌, ◌≡◌, refl, ap, Bool, Option-cases, inl, inr, List, Option, length, length-append,
  arith,
}
use webson.Errors.{Error, except_eof}
use webson.Message.{Message}
use webson.Connection.{Connection}
use webson.Connection.Receive.{
  Try, done, stop, ◌>>=◌, read_vessel, read_size, read_extended, read_mask, read_key, read_payload,
  take_payload, open_payload, read_meta, read_frame, incoming, size_missing, key_missing,
}
use webson.Reader
use webson.Reader.{Reader, remaining}
use webson.Reader.Laws.{read-remaining, peek-discard}

-- Inversion of a step that went on.
pub >>=-eq-done {ℓ κ} :
    {A : Type ℓ} {B : Type κ} (m : Try A) (f : A → Try B) {b : B}
    → (m >>= f) ≡ done b
    → (a : A) × (m ≡ done a) × (f a ≡ done b)
>>=-eq-done (done a) f h = (a, refl, h)
>>=-eq-done (stop s) f h = cc

abbrev pub left : Reader → ℕ
left r = length (remaining r)

read_vessel-left :
    (n : ℕ) (failure : Option Error → Option Error) (r : Reader) (bytes : List ℕ) (r' : Reader)
    → read_vessel n failure r ≡ done (bytes, r')
    → left r ≡ n + left r'
unfolding read_vessel
read_vessel-left n failure r bytes r' e =
    let (got, cause, r1) = Reader.read n r in
    let whole = ap length (read-remaining n r) in
    let split = length-append got (remaining r1) in ground (arith, whole, split)

read_extended-left :
    (n : ℕ) (m : Message) (r : Reader) (m' : Message) (r' : Reader)
    → read_extended n m r ≡ done (m', r')
    → left r' ≤ left r
unfolding read_extended
read_extended-left n m r m' r' e =
    let ((bytes, r1), p, q) = >>=-eq-done (read_vessel n size_missing r) _ e in
    ground (arith, read_vessel-left n size_missing r bytes r1 p)

read_size-left :
    (m : Message) (r : Reader) (m' : Message) (r' : Reader)
    → read_size m r ≡ done (m', r')
    → left r' ≤ left r
unfolding read_size
read_size-left m r m' r' e =
    ground (arith, read_extended-left 2 m r m' r', read_extended-left 8 m r m' r')

read_key-left :
    (m : Message) (r : Reader) (m' : Message) (r' : Reader)
    → read_key m r ≡ done (m', r')
    → left r' ≤ left r
unfolding read_key
read_key-left m r m' r' e =
    let ((bytes, r1), p, q) = >>=-eq-done (read_vessel 4 key_missing r) _ e in
    ground (arith, read_vessel-left 4 key_missing r bytes r1 p)

read_mask-left :
    (m : Message) (r : Reader) (m' : Message) (r' : Reader)
    → read_mask m r ≡ done (m', r')
    → left r' ≤ left r
unfolding read_mask
read_mask-left m r m' r' e = ground (arith, read_key-left m r m' r')

take_payload-left :
    (m : Message) (r : Reader) (m' : Message) (cancel : Bool) (r' : Reader)
    → take_payload m r ≡ done (m', cancel, r')
    → left r' ≤ left r
unfolding take_payload
take_payload-left m r m' cancel r' e = elim (Option-cases (Reader.peek m.receive.size r).1) [
  | inr (x, f) ↦ absurd (ground arith)
  | inl f ↦
      let payload : List ℕ = (Reader.peek m.receive.size r).0 in
      let ((m1, c), p, q) =
        >>=-eq-done (open_payload (Reader.next_byte (Reader.peek m.receive.size r).2) m payload) _
          (rw (f, take_payload) at e) in
      let (h, whole) = peek-discard m.receive.size r f in
      ground (arith, length-append payload (remaining r'), ap length whole)
]

read_payload-left :
    (limit : ℕ) (m : Message) (r : Reader) (m' : Message) (cancel : Bool) (r' : Reader)
    → read_payload limit m r ≡ done (m', cancel, r')
    → left r' ≤ left r
unfolding read_payload
read_payload-left limit m r m' cancel r' e = ground (arith, take_payload-left m r m' cancel r')

-- A frame that was read took two bytes or more from the network.
pub read_frame-left :
    (con : Connection) (now : ℕ) (r : Reader) (m : Message) (cancel : Bool) (r' : Reader)
    → read_frame con now r ≡ done (m, cancel, r')
    → left r' + 2 ≤ left r
unfolding read_frame
read_frame-left con now r m cancel r' e =
    let ((header, r1), p1, q1) = >>=-eq-done (read_vessel 2 except_eof r) _ e in
    let (m1, p2, q2) = >>=-eq-done (read_meta (incoming con now) header) _ q1 in
    let ((m2, r2), p3, q3) = >>=-eq-done (read_size m1 r1) _ q2 in
    let ((m3, r3), p4, q4) = >>=-eq-done (read_mask m2 r2) _ q3 in
    omega (
      arith,
      read_vessel-left 2 except_eof r header r1 p1,
      read_size-left m1 r1 m2 r2 p3,
      read_mask-left m2 r2 m3 r3 p4,
      read_payload-left con.config.max_payload_size m3 r3 m cancel r' q4,
    )
