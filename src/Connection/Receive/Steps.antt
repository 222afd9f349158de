-- ===== src/Connection/Receive/Steps.antt =====
-- The steps of `read_frame` on a reader whose buffer starts with what they ask for.
use webson.Common.{
  ℕ, ◌%◌, ◌^◌, ◌≤◌, ◌<◌, ◌≡◌, refl, ap, ap₂, ◌∙◌, Bool, true, false, Bool-cases, inl, inr,
  if◌then◌else◌, leb, ==_refl, List, [], ◌∷◌, ◌++◌, Option, length, arith, leb→le,
}
use webson.Common.Words.{
  big_endian, put_uint16, put_uint64, big_endian-put_uint16, big_endian-put_uint64,
}
use webson.Errors.{Error}
use webson.Message.{Message}
use webson.Message.Mask.{set_mask}
use webson.Message.Assemble.{size_byte, extended_bytes}
use webson.Message.Assemble.Shape.{mask_field}
use webson.Connection.Receive.{
  done, ◌>>=◌, vessel_result, read_vessel, read_extended, read_size, read_key, read_mask, with_size,
  int64, size_missing, key_missing,
}
use webson.Reader.{Reader}
use webson.Reader.Laws.{read-buffered}

abbrev pub with_buffer : List ℕ → Reader → Reader
with_buffer bs r = record r { buffered = bs }

pub read_vessel-buffered :
    (n b : ℕ) (bs rest : List ℕ) (failure : Option Error → Option Error) (r : Reader)
    → r.buffered ≡ (b ∷ bs) ++ rest
    → length (b ∷ bs) ≡ n
    → read_vessel n failure r ≡ done (b ∷ bs, with_buffer rest r)
unfolding read_vessel
read_vessel-buffered n b bs rest failure r e h = rw (← h) (
    ap (vessel_result (length (b ∷ bs)) failure) (read-buffered b bs rest r e)
    ∙ rw (==_refl (length (b ∷ bs))))

read_extended-buffered :
    (n b : ℕ) (bs rest : List ℕ) (m : Message) (r : Reader)
    → r.buffered ≡ (b ∷ bs) ++ rest
    → length (b ∷ bs) ≡ n
    → read_extended n m r ≡ done (with_size m (int64 (big_endian (b ∷ bs))), with_buffer rest r)
unfolding read_extended
read_extended-buffered n b bs rest m r e h =
    ap (λ t. t >>= (λ p. done (with_size m (int64 (big_endian p.0)), p.1)))
      (read_vessel-buffered n b bs rest size_missing r e h)

size_fields_large :
    (n : ℕ) → 65536 ≤ n → (size_byte n ≡ 127) × (extended_bytes n ≡ put_uint64 (n % 2 ^ 64))
unfolding size_byte extended_bytes
size_fields_large n h = ground arith

size_fields_medium :
    (n : ℕ)
    → n < 65536
    → 125 < n
    → (size_byte n ≡ 126) × (extended_bytes n ≡ put_uint16 (n % 2 ^ 16))
unfolding size_byte extended_bytes
size_fields_medium n h k = ground arith

size_fields_small : (n : ℕ) → n ≤ 125 → (size_byte n ≡ n) × (extended_bytes n ≡ [])
unfolding size_byte extended_bytes
size_fields_small n h = ground arith

read_size_cases :
    (m : Message) (r : Reader)
    → (m.receive.size ≡ 127 → read_size m r ≡ read_extended 8 m r)
      × (m.receive.size ≡ 126 → read_size m r ≡ read_extended 2 m r)
      × (m.receive.size ≤ 125 → read_size m r ≡ done (m, r))
unfolding read_size
read_size_cases m r = (λ h. ground arith, λ h. ground arith, λ h. ground arith)

with_size_same : (m : Message) (n : ℕ) → m.receive.size ≡ n → m ≡ with_size m n
unfolding with_size
with_size_same m n h = rw (← h)

module _ (n : ℕ) (rest : List ℕ) (m : Message) (r : Reader) (size : m.receive.size ≡ size_byte n)
    (fits : n < 2 ^ 63) (e : r.buffered ≡ extended_bytes n ++ rest) where
  read_size_large : 65536 ≤ n → read_size m r ≡ done (with_size m n, with_buffer rest r)
  read_size_large h =
      let (s, x) = size_fields_large n h in
      let front : r.buffered ≡ put_uint64 (n % 2 ^ 64) ++ rest = e ∙ ap (λ t. t ++ rest) x in
      let value : int64 (big_endian (put_uint64 (n % 2 ^ 64))) ≡ n =
        rw (big_endian-put_uint64 (n % 2 ^ 64) (omega arith)) (unfold int64 in ground arith) in
      (read_size_cases m r).0 (size ∙ s)
      ∙ unfold put_uint64 in
        read_extended-buffered 8 _ _ rest m r front refl
        ∙ ap (λ t. done (with_size m t, with_buffer rest r)) value

  read_size_medium : n < 65536 → 125 < n → read_size m r ≡ done (with_size m n, with_buffer rest r)
  read_size_medium h k =
      let (s, x) = size_fields_medium n h k in
      let front : r.buffered ≡ put_uint16 (n % 2 ^ 16) ++ rest = e ∙ ap (λ t. t ++ rest) x in
      let value : int64 (big_endian (put_uint16 (n % 2 ^ 16))) ≡ n =
        rw (big_endian-put_uint16 (n % 2 ^ 16) (omega arith)) (unfold int64 in ground arith) in
      (read_size_cases m r).1 (size ∙ s)
      ∙ unfold put_uint16 in
        read_extended-buffered 2 _ _ rest m r front refl
        ∙ ap (λ t. done (with_size m t, with_buffer rest r)) value

  read_size_small : n ≤ 125 → read_size m r ≡ done (with_size m n, with_buffer rest r)
  read_size_small h =
      let (s, x) = size_fields_small n h in
      let front : r.buffered ≡ rest = e ∙ ap (λ t. t ++ rest) x in
      (read_size_cases m r).2 (omega arith)
      ∙ ap₂ (λ t u. done (t, u)) (with_size_same m n (size ∙ s)) (rw (← front))

  -- The size of a frame comes back from its size fields.
  pub read_size-buffered : read_size m r ≡ done (with_size m n, with_buffer rest r)
  read_size-buffered = elim (Bool-cases (leb 65536 n)) [
    | inl big ↦ read_size_large (leb→le 65536 n big)
    | inr small ↦ elim (Bool-cases (leb n 125)) [
      | inl tiny ↦ read_size_small (leb→le n 125 tiny)
      | inr more ↦ read_size_medium (ground arith) (ground arith)
    ]
  ]

read_key-buffered :
    (b : ℕ) (bs rest : List ℕ) (m : Message) (r : Reader)
    → length (b ∷ bs) ≡ 4
    → r.buffered ≡ (b ∷ bs) ++ rest
    → read_key m r ≡ done (set_mask m (b ∷ bs), with_buffer rest r)
unfolding read_key
read_key-buffered b bs rest m r h e =
    ap (λ t. t >>= (λ p. done (set_mask m p.0, p.1)))
      (read_vessel-buffered 4 b bs rest key_missing r e h)

read_mask_cases :
    (m : Message) (r : Reader)
    → (m.receive.masked ≡ true → read_mask m r ≡ read_key m r)
      × (m.receive.masked ≡ false → read_mask m r ≡ done (m, r))
unfolding read_mask
read_mask_cases m r = (λ h. ground arith, λ h. ground arith)

pub read_mask-buffered :
    (do_mask : Bool) (mask rest : List ℕ) (m : Message) (r : Reader)
    → m.receive.masked ≡ do_mask
    → length mask ≡ 4
    → r.buffered ≡ mask_field do_mask mask ++ rest
    → read_mask m r ≡ done (if do_mask then set_mask m mask else m, with_buffer rest r)
read_mask-buffered false mask rest m r k h e =
    (read_mask_cases m r).1 k ∙ ap (λ t. done (m, t)) (rw (← e))
read_mask-buffered true [] rest m r k h e = absurd (omega arith)
read_mask-buffered true (b ∷ bs) rest m r k h e =
    (read_mask_cases m r).0 k ∙ read_key-buffered b bs rest m r h e
