-- ===== src/Connection/Start/Frames.antt =====
-- The loop of `Start` on frames that have come in: a round for each.
use webson.Common.{
  ℕ, suc, ◌+◌, ◌≤◌, ◌<◌, ◌≡◌, ◌^◌, refl, ap, sym, ◌∙◌, Bool, true, false, ◌&&◌, List, [], ◌∷◌, ◌++◌,
  All, length, flatten, map, arith,
}
use mathlib.Core.List.{append_assoc}
use webson.Message.{Message, is_control}
use webson.Message.Assemble.{Flate, stream_payload}
use webson.Message.Assemble.Shape.{frame_of}
use webson.Message.Mask.{set_mask}
use webson.Connection.{Connection}
use webson.Connection.Events.{trigger_message}
use webson.Connection.Receive.{
  done, read_frame, deliver, deliver_data, cancel_stream, with_size, with_stream_id, incoming,
}
use webson.Connection.Receive.Header.{IsAgreed}
use webson.Connection.Receive.Steps.{with_buffer}
use webson.Connection.Receive.Payload.{opened}
use webson.Connection.Receive.Frame.{keyed_message, read_frame-frame_of}
use webson.Connection.Start.{serve}
use webson.Reader.{Reader}

-- A frame on its way: the message, its mask, and the payload behind compression.
pub record Sent : Type 0 where
  pub msg : Message
  pub mask : List ℕ
  pub packed : List ℕ

abbrev pub body_of : Sent → List ℕ
body_of s = stream_payload s.msg.send s.packed

abbrev pub bytes_of : Sent → List ℕ
bytes_of s = frame_of s.msg s.mask (body_of s)

-- A data frame that the receiver, with a buffer of `size` bytes, agrees with.
pub record Arrives (con : Connection) (size : ℕ) (s : Sent) : Type 0 where
  pub agreed : IsAgreed s.msg (length (body_of s)) con
  pub ids :
      s.msg.send.streamlize ≡ true → (1 ≤ s.msg.send.stream_id) × (s.msg.send.stream_id < 2 ^ 15)
  pub same_mask : s.msg.config.extra_mask ≡ con.config.private_mask
  pub four_bytes : length s.mask ≡ 4
  pub fits : length (body_of s) ≤ size
  pub data_frame : s.msg.msg_type < 8

-- The message that the receiver makes of it.
abbrev pub received : Connection → ℕ → Sent → Message
received con now s =
    opened (keyed_message con now s.msg (length (body_of s)) s.mask) s.msg.send s.packed

abbrev pub cancels : Sent → Bool
cancels s = s.msg.send.streamlize && s.msg.send.cancel_stream

-- The frames are handed on, one behind the other.
unfoldable pub deliver_sent : (ℕ → ℕ) → ℕ → List Sent → Connection → Connection
deliver_sent clock n [] con = con
deliver_sent clock n (s ∷ ss) con =
    deliver_sent clock (suc n) ss (deliver (received con (clock n) s) (cancels s) con).0

-- What the reader knows of a connection stays the same.
abbrev Alike : Connection → Connection → Type 0
Alike a b = (a.nego ≡ b.nego) × (a.is_client ≡ b.is_client) × (a.config ≡ b.config)

deliver-Alike :
    (m : Message) (cancel : Bool) (con : Connection) → Alike (deliver m cancel con).0 con
unfolding deliver deliver_data cancel_stream trigger_message
deliver-Alike m cancel con = ground arith

Alike-Arrives :
    (a b : Connection) (size : ℕ) (s : Sent) → Alike a b → Arrives b size s → Arrives a size s
Alike-Arrives a b size s (nego, role, config) h = record {
  agreed = record {
    type_pos = h.agreed.type_pos;
    type_small = h.agreed.type_small;
    control_fits = h.agreed.control_fits;
    compress_agreed = λ q. ap (λ x. x.compressable) nego ∙ h.agreed.compress_agreed q;
    stream_agreed = λ q. ap (λ x. x.streamable) nego ∙ h.agreed.stream_agreed q;
    client_masks = λ q. h.agreed.client_masks (sym role ∙ q);
    stream_room = h.agreed.stream_room;
    size_word = h.agreed.size_word;
    size_allowed = λ q. rw config (h.agreed.size_allowed (rw config at q));
  };
  ids = h.ids;
  same_mask = h.same_mask ∙ sym (ap (λ x. x.private_mask) config);
  four_bytes = h.four_bytes;
  fits = h.fits;
  data_frame = h.data_frame;
}

All-Arrives :
    (a b : Connection) (size : ℕ) (ss : List Sent)
    → Alike a b
    → All (Arrives b size) ss
    → All (Arrives a size) ss
All-Arrives a b size [] e h = tt
All-Arrives a b size (s ∷ ss) e (h, hs) =
    (Alike-Arrives a b size s e h, All-Arrives a b size ss e hs)

goes_on :
    (m : Message) (cancel : Bool) (con : Connection)
    → m.msg_type < 8
    → (deliver m cancel con).1 ≡ false
unfolding deliver is_control
goes_on m cancel con h = ground arith

received-msg_type :
    (con : Connection) (now : ℕ) (s : Sent) → (received con now s).msg_type ≡ s.msg.msg_type
unfolding set_mask with_size incoming with_stream_id
received-msg_type con now s = ground arith

serve_step :
    (fuel : ℕ) (f : Flate) (clock : ℕ → ℕ) (n : ℕ) (con : Connection) (r r' : Reader) (m : Message)
    (cancel : Bool)
    → read_frame con (clock n) r ≡ done (m, cancel, r')
    → (deliver m cancel con).1 ≡ false
    → serve (suc fuel) f clock n con r ≡ serve fuel f clock (suc n) (deliver m cancel con).0 r'
unfolding serve
serve_step fuel f clock n con r r' m cancel e go = rw (e, serve, go)

deliver_sent_nil : (clock : ℕ → ℕ) (n : ℕ) (con : Connection) → deliver_sent clock n [] con ≡ con
unfolding deliver_sent
deliver_sent_nil clock n con = refl

deliver_sent_cons :
    (clock : ℕ → ℕ) (n : ℕ) (s : Sent) (ss : List Sent) (con : Connection)
    → deliver_sent clock n (s ∷ ss) con
      ≡ deliver_sent clock (suc n) ss (deliver (received con (clock n) s) (cancels s) con).0
unfolding deliver_sent
deliver_sent_cons clock n s ss con = refl

received-data :
    (con : Connection) (now : ℕ) (s : Sent) → s.msg.msg_type < 8 → (received con now s).msg_type < 8
received-data con now s h = omega (arith, h, received-msg_type con now s)

-- Frames of data messages as assemble writes them, in the buffer of a receiver that agrees with
-- each of them and with any bytes behind: the loop of Start takes one round for each, hands its
-- message on, in order, and goes on behind the last one.
pub serve-deliver_sent :
    (fuel : ℕ) (f : Flate) (clock : ℕ → ℕ) (n : ℕ) (con : Connection) (r : Reader) (ss : List Sent)
    (rest : List ℕ)
    → All (Arrives con r.size) ss
    → r.buffered ≡ flatten (map bytes_of ss) ++ rest
    → serve (length ss + fuel) f clock n con r
      ≡ serve fuel f clock (n + length ss) (deliver_sent clock n ss con) (with_buffer rest r)
serve-deliver_sent fuel f clock n con r [] rest h e =
    let no_rounds : 0 + fuel ≡ fuel = omega arith in
    let same_time : n ≡ n + 0 = omega arith in
    ap (λ k. serve k f clock n con r) no_rounds
    ∙ ap (λ k. serve fuel f clock k con r) same_time
    ∙ ap (λ b. serve fuel f clock (n + 0) con (with_buffer b r)) e
    ∙ ap (λ c. serve fuel f clock (n + 0) c (with_buffer rest r))
        (sym (deliver_sent_nil clock n con))
serve-deliver_sent fuel f clock n con r (s ∷ ss) rest (h, hs) e =
    let m = received con (clock n) s in
    let next = (deliver m (cancels s) con).0 in
    let tail = flatten (map bytes_of ss) ++ rest in
    let one_round : suc (length ss) + fuel ≡ suc (length ss + fuel) = omega arith in
    let same_time : suc n + length ss ≡ n + suc (length ss) = omega arith in
    let frame =
      read_frame-frame_of con (clock n) s.msg s.mask s.packed tail r h.agreed h.ids h.same_mask
        h.four_bytes h.fits (e ∙ append_assoc (bytes_of s) (flatten (map bytes_of ss)) rest) in
    ap (λ k. serve k f clock n con r) one_round
    ∙ serve_step (length ss + fuel) f clock n con r (with_buffer tail r) m (cancels s) frame
        (goes_on m (cancels s) con (received-data con (clock n) s h.data_frame))
    ∙ serve-deliver_sent fuel f clock (suc n) next (with_buffer tail r) ss rest
        (All-Arrives next con r.size ss (deliver-Alike m (cancels s) con) hs) refl
    ∙ ap (λ k. serve fuel f clock k (deliver_sent clock (suc n) ss next) (with_buffer rest r))
        same_time
    ∙ ap (λ c. serve fuel f clock (n + suc (length ss)) c (with_buffer rest r))
        (sym (deliver_sent_cons clock n s ss con))
