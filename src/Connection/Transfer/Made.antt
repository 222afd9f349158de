-- ===== src/Connection/Transfer/Made.antt =====
-- The messages that a receiver makes of the frames that are on the way to it.
use webson.Common.{
  ℕ, suc, ◌+◌, ◌++◌, flatten, ◌<◌, ◌≡◌, refl, ap, ap₂, sym, ◌∙◌, Bool, false, ◌||◌, if◌then◌else◌,
  leb, List, [], ◌∷◌, All, length, map, arith,
}
use webson.Message.{Message, is_control}
use webson.Message.Assemble.{stream_payload, size_byte}
use webson.Connection.Receive.Payload.{opened}
use webson.Message.Assemble.Shape.{frame_of}
use webson.Message.Mask.{set_mask}
use webson.Connection.{Connection}
use webson.Connection.Events.{trigger_message}
use webson.Connection.Write.Frames.{IsPlain, sent_frames, next_mask}
use webson.Connection.Receive.{
  deliver, deliver_data, cancel_stream, incoming, with_size, with_stream_id,
}
use webson.Connection.Receive.Reassembly.{IsPart, deliver_all}
use webson.Connection.Start.{serve}
use webson.Connection.Start.Frames.{
  Sent, Arrives, bytes_of, body_of, received, cancels, deliver_sent, serve-deliver_sent,
}
use webson.Connection.Receive.Steps.{with_buffer}
use webson.Message.Assemble.{Flate}
use webson.Reader.{Reader}

-- The frames of some messages, with the masks from the `k`-th one on.
unfoldable pub on_the_way : (ℕ → List ℕ) → ℕ → List Message → List Sent
on_the_way masks k [] = []
on_the_way masks k (m ∷ ms) =
    record { msg = m; mask = masks k; packed = m.payload } ∷ on_the_way masks (next_mask m k) ms

pub body-plain :
    (m : Message) (body : List ℕ) → m.send.streamlize ≡ false → stream_payload m.send body ≡ body
unfolding stream_payload
body-plain m body h = ground arith

pub bytes-on_the_way :
    (masks : ℕ → List ℕ) (k : ℕ) (ms : List Message)
    → All IsPlain ms
    → map bytes_of (on_the_way masks k ms) ≡ sent_frames masks k ms
unfolding on_the_way sent_frames
bytes-on_the_way masks k [] h = refl
bytes-on_the_way masks k (m ∷ ms) (h, hs) =
    ap₂ (λ b rest. frame_of m (masks k) b ∷ rest) (body-plain m m.payload h.no_stream)
      (bytes-on_the_way masks (next_mask m k) ms hs)

-- What the receiver reads of a connection.
abbrev pub Alike : Connection → Connection → Type 0
Alike a b = (a.nego ≡ b.nego) × (a.is_client ≡ b.is_client) × (a.config ≡ b.config)

pub incoming-Alike : (a b : Connection) (now : ℕ) → Alike a b → incoming a now ≡ incoming b now
unfolding incoming
incoming-Alike a b now (nego, role, config) = ground arith

pub headed : Message → Sent → Message
headed v s = record v {
  msg_type = s.msg.msg_type;
  is_complete = s.msg.is_complete || leb 8 s.msg.msg_type;
  receive = record receive {
    compressed = s.msg.send.do_compress;
    is_stream = s.msg.send.streamlize;
    masked = s.msg.send.do_mask;
    size = size_byte (length (body_of s));
  };
}
  where
    open v use {receive}

pub received_from : Message → Sent → Message
unfolding headed
received_from v s =
    opened
      (if s.msg.send.do_mask
        then set_mask (with_size (headed v s) (length (body_of s))) s.mask
        else with_size (headed v s) (length (body_of s)))
      s.msg.send s.packed

pub received-Alike :
    (a b : Connection) (now : ℕ) (s : Sent) → Alike a b → received a now s ≡ received b now s
received-Alike a b now s e =
    unfold received_from in ap (λ v. received_from v s) (incoming-Alike a b now e)

pub received-IsPart :
    (con : Connection) (now : ℕ) (s : Sent)
    → s.msg.msg_type < 8
    → s.msg.send.streamlize ≡ false
    → IsPart 0 s.msg.is_complete (received con now s)
unfolding is_control set_mask with_size with_stream_id incoming
received-IsPart con now s h p = record {
  data_frame = ground arith;
  of_stream = ground arith;
  flag = ground arith;
}

-- The messages that the receiver makes of the frames.
unfoldable pub made : (ℕ → ℕ) → ℕ → Connection → List Sent → List Message
made clock n con [] = []
made clock n con (s ∷ ss) = received con (clock n) s ∷ made clock (suc n) con ss

pub deliver-same :
    (m : Message) (cancel : Bool) (con : Connection) → Alike (deliver m cancel con).0 con
unfolding deliver deliver_data cancel_stream trigger_message
deliver-same m cancel con = ground arith

abbrev pub NoCancel : Sent → Type 0
NoCancel s = cancels s ≡ false

pub deliver_sent_cons :
    (clock : ℕ → ℕ) (n : ℕ) (s : Sent) (ss : List Sent) (con : Connection)
    → deliver_sent clock n (s ∷ ss) con
      ≡ deliver_sent clock (suc n) ss (deliver (received con (clock n) s) (cancels s) con).0
unfolding deliver_sent
deliver_sent_cons clock n s ss con = refl

pub made_cons :
    (clock : ℕ → ℕ) (n : ℕ) (s : Sent) (ss : List Sent) (con start : Connection)
    → deliver_all (made clock n start (s ∷ ss)) con
      ≡ deliver_all (made clock (suc n) start ss) (deliver (received start (clock n) s) false con).0
unfolding deliver_all made
made_cons clock n s ss con start = refl

-- Frames that cancel nothing are delivered as one list.
pub deliver_sent-made :
    (clock : ℕ → ℕ) (n : ℕ) (ss : List Sent) (con start : Connection)
    → Alike con start
    → All NoCancel ss
    → deliver_sent clock n ss con ≡ deliver_all (made clock n start ss) con
deliver_sent-made clock n [] con start e h = unfold deliver_sent deliver_all made in refl
deliver_sent-made clock n (s ∷ ss) con start (x, y, z) (h, hs) =
    let m = received start (clock n) s in
    let next = (deliver m false con).0 in
    let (x', y', z') = deliver-same m false con in
    deliver_sent_cons clock n s ss con
    ∙ ap₂ (λ t c. deliver_sent clock (suc n) ss (deliver t c con).0)
        (received-Alike con start (clock n) s (x, y, z)) h
    ∙ deliver_sent-made clock (suc n) ss next start (x' ∙ x, y' ∙ y, z' ∙ z) hs
    ∙ sym (made_cons clock n s ss con start)

length-bytes_of : (ss : List Sent) → length (map bytes_of ss) ≡ length ss
length-bytes_of [] = refl
length-bytes_of (s ∷ ss) = ap suc (length-bytes_of ss)

-- The rounds of `Start` for the frames whose bytes are in the buffer.
pub serve-wire :
    (fuel : ℕ) (f : Flate) (clock : ℕ → ℕ) (n : ℕ) (rc : Connection) (r : Reader) (ss : List Sent)
    (wire : List (List ℕ)) (rest : List ℕ)
    → map bytes_of ss ≡ wire
    → All (Arrives rc r.size) ss
    → r.buffered ≡ flatten wire ++ rest
    → serve (length wire + fuel) f clock n rc r
      ≡ serve fuel f clock (n + length wire) (deliver_sent clock n ss rc) (with_buffer rest r)
serve-wire fuel f clock n rc r ss wire rest bytes h e =
    let size : length ss ≡ length wire = sym (length-bytes_of ss) ∙ ap length bytes in
    ap (λ k. serve (k + fuel) f clock n rc r) (sym size)
    ∙ serve-deliver_sent fuel f clock n rc r ss rest h (e ∙ ap (λ x. flatten x ++ rest) (sym bytes))
    ∙ ap (λ k. serve fuel f clock (n + k) (deliver_sent clock n ss rc) (with_buffer rest r)) size
