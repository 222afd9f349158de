-- ===== src/Connection/Transfer/Linked.antt =====
-- Two sides that fit each other, and the frames of a message between them.
use webson.Common.{
  ℕ, suc, ◌≤◌, ◌<◌, ◌≡◌, ◌≢◌, ◌^◌, ap, Bool, true, false, List, [], ◌∷◌, none, All, length, arith,
}
use webson.Message.{Message, MessageType, spawn_vessel}
use webson.Message.Split.{chunk_message}
use webson.Message.Split.Chunks.{frames}
use webson.Message.Split.Laws.{Fits}
use webson.Connection.{Connection, lookup}
use webson.Connection.Streams.{send_options}
use webson.Connection.Write.{new_message, vessel}
use webson.Connection.Write.Frames.{IsWritable, next_mask}
use webson.Connection.Write.Wire.{outgoing}
use webson.Connection.Receive.Reassembly.{IsPart}
use webson.Connection.Start.Frames.{Sent, Arrives, body_of, received}
use webson.Connection.Transfer.Made.{on_the_way, body-plain, received-IsPart, made, NoCancel}
use webson.Connection.Transfer.Sequence.{IsSequence}
use webson.Connection.Streams.{send_config}

-- The two sides of a connection without streams and compression, and a data message that fits.
pub record IsLinked (t : MessageType) (p : List ℕ) (con rc : Connection) (size : ℕ) : Type 0 where
  pub type_pos : 0 < t
  pub data_type : t < 8
  pub no_stream : (send_options con (new_message t p con)).streamlize ≡ false
  pub no_compress : (send_options con (new_message t p con)).do_compress ≡ false
  pub chunks : 0 < con.config.chunk_size
  pub fits : con.config.chunk_size ≤ size
  pub small : con.config.chunk_size < 2 ^ 63
  pub allowed : rc.config.max_payload_size ≢ 0 → con.config.chunk_size ≤ rc.config.max_payload_size
  pub roles : rc.is_client ≡ false → con.is_client ≡ true
  pub same_mask : con.config.private_mask ≡ rc.config.private_mask
  pub waits : rc.config.trigger_on_start ≡ false
  pub idle : lookup 0 rc.pending_streams ≡ none
  pub writable : IsWritable con

module _ (t : MessageType) (p : List ℕ) (con rc : Connection) (size : ℕ)
    (w : IsLinked t p con rc size) where
  abbrev m : Message
  m = outgoing t p con

  abbrev chunk : Bool → Bool → List ℕ → ℕ → Sent
  chunk b x c k = record { msg = vessel m b x c; mask = con.entropy k; packed = c }

  length-body : (b x : Bool) (c : List ℕ) (k : ℕ) → length (body_of (chunk b x c k)) ≡ length c
  unfolding spawn_vessel send_options
  length-body b x c k = ap length (body-plain (vessel m b x c) c w.no_stream)

  pub chunk-Arrives :
      (b x : Bool) (c : List ℕ) (k : ℕ)
      → Fits con.config.chunk_size c
      → Arrives rc size (chunk b x c k)
  unfolding spawn_vessel send_options send_config
  chunk-Arrives b x c k h =
      let e = length-body b x c k in
      let s = w.no_stream in
      let z = w.no_compress in
      record {
        agreed = record {
          type_pos = w.type_pos;
          type_small = omega (arith, w.data_type);
          control_fits = λ q. absurd (omega (arith, w.data_type, q));
          compress_agreed = λ q. absurd cc;
          stream_agreed = λ q. absurd cc;
          client_masks = w.roles;
          stream_room = λ q. absurd cc;
          size_word = omega (arith, e, h, w.small);
          size_allowed = λ q. omega (arith, e, h, w.allowed q);
        };
        ids = λ q. absurd cc;
        same_mask = w.same_mask;
        four_bytes = w.writable.masks k;
        fits = omega (arith, e, h, w.fits);
        data_frame = w.data_type;
      }

  pub frames-Arrives :
      (k : ℕ) (cs : List (List ℕ))
      → All (Fits con.config.chunk_size) cs
      → All (Arrives rc size) (on_the_way con.entropy k (frames m cs))
  unfolding frames on_the_way chunk_message spawn_vessel
  frames-Arrives k [] h = tt
  frames-Arrives k (c ∷ []) (h, hs) = (chunk-Arrives true m.send.cancel_stream c k h, tt)
  frames-Arrives k (c ∷ d ∷ cs) (h, hs) = (
    chunk-Arrives false m.send.cancel_stream c k h,
    frames-Arrives (next_mask (chunk_message m false c) k) (d ∷ cs) hs,
  )

  pub frames-NoCancel :
      (k : ℕ) (cs : List (List ℕ)) → All NoCancel (on_the_way con.entropy k (frames m cs))
  unfolding frames on_the_way chunk_message send_options
  frames-NoCancel k [] = tt
  frames-NoCancel k (c ∷ []) = let s = w.no_stream in (ground arith, tt)
  frames-NoCancel k (c ∷ d ∷ cs) =
      let s = w.no_stream in
      (ground arith, frames-NoCancel (next_mask (chunk_message m false c) k) (d ∷ cs))

  pub chunk-IsPart :
      (b x : Bool) (c : List ℕ) (k now : ℕ) → IsPart 0 b (received rc now (chunk b x c k))
  unfolding spawn_vessel send_options
  chunk-IsPart b x c k now = received-IsPart rc now (chunk b x c k) w.data_type w.no_stream

  pub made-IsSequence :
      (clock : ℕ → ℕ) (n k : ℕ) (c : List ℕ) (cs : List (List ℕ))
      → IsSequence 0 (made clock n rc (on_the_way con.entropy k (frames m (c ∷ cs))))
  unfolding frames on_the_way made chunk_message spawn_vessel
  made-IsSequence clock n k c [] = chunk-IsPart true m.send.cancel_stream c k (clock n)
  made-IsSequence clock n k c (d ∷ []) = (
    chunk-IsPart false m.send.cancel_stream c k (clock n),
    made-IsSequence clock (suc n) (next_mask (chunk_message m false c) k) d [],
  )
  made-IsSequence clock n k c (d ∷ e ∷ cs) = (
    chunk-IsPart false m.send.cancel_stream c k (clock n),
    made-IsSequence clock (suc n) (next_mask (chunk_message m false c) k) d (e ∷ cs),
  )
