-- ===== src/Connection/Transfer/Numbered.antt =====
-- Two sides with streams that fit each other, and the frames of a message between them.
use webson.Common.{
  ℕ, suc, ◌+◌, ◌≤◌, ◌<◌, ◌≡◌, ◌≢◌, ◌^◌, refl, ap, ◌∙◌, Bool, true, false, List, [], ◌∷◌, none, All,
  length, map, flatten, arith,
}
use webson.Common.Words.{put_uint16}
use webson.Message.{Message, MessageType, is_control}
use webson.Message.Assemble.{stream_payload}
use webson.Message.Mask.{set_mask}
use webson.Message.Split.{chunk_message}
use webson.Message.Split.Chunks.{frames}
use webson.Message.Split.Laws.{Fits, frames-payloads}
use webson.Connection.{Connection, lookup}
use webson.Connection.Streams.{send_options, send_config, with_stream}
use webson.Connection.Write.Frames.{IsWritable, next_mask}
use webson.Connection.Write.Wire.{outgoing}
use webson.Connection.Write.Numbered.{IsNumbering, numbered_frames, numbered_frame}
use webson.Connection.Receive.{incoming, with_size, with_stream_id}
use webson.Connection.Receive.Reassembly.{IsPart}
use webson.Connection.Start.Frames.{Sent, Arrives, body_of, bytes_of, received, deliver_sent}
use webson.Connection.Transfer.Made.{on_the_way, made, NoCancel, deliver_sent-made}
use webson.Connection.Transfer.Sequence.{IsSequence, IsTransfer}
use webson.Connection.Transfer.Whole.{list-IsTransfer, entities-made, made-NotReading}

-- The two sides of a connection with streams and without compression, and a data message that fits.
pub record IsStreamLinked (t : MessageType) (con rc : Connection) (size : ℕ) : Type 0 where
  pub type_pos : 0 < t
  pub data_type : t < 8
  pub streams : con.nego.streamable ≡ true
  pub streams_there : rc.nego.streamable ≡ true
  pub plain : con.nego.compressable ≡ false
  pub ids_small : con.config.max_streams < 2 ^ 15
  pub chunks : 0 < con.config.chunk_size
  pub fits : con.config.chunk_size + 2 ≤ size
  pub small : con.config.chunk_size + 2 < 2 ^ 63
  pub allowed :
      rc.config.max_payload_size ≢ 0 → con.config.chunk_size + 2 ≤ rc.config.max_payload_size
  pub roles : rc.is_client ≡ false → con.is_client ≡ true
  pub same_mask : con.config.private_mask ≡ rc.config.private_mask
  pub waits : rc.config.trigger_on_start ≡ false
  pub idle : (j : ℕ) → lookup j rc.pending_streams ≡ none
  pub writable : IsWritable con

-- The message with its stream id.
abbrev pub numbered : MessageType → List ℕ → ℕ → Connection → Message
numbered t p i con = with_stream (outgoing t p con) i

length-stream_body :
    (m : Message) (c : List ℕ)
    → m.send.streamlize ≡ true
    → m.send.cancel_stream ≡ false
    → length (stream_payload m.send c) ≡ length c + 2
unfolding stream_payload put_uint16
length-stream_body m c h k = ground arith

stream-IsPart :
    (con : Connection) (now : ℕ) (s : Sent)
    → s.msg.msg_type < 8
    → s.msg.send.streamlize ≡ true
    → IsPart s.msg.send.stream_id s.msg.is_complete (received con now s)
unfolding is_control set_mask with_size with_stream_id incoming
stream-IsPart con now s h p = record {
  data_frame = ground arith;
  of_stream = ground arith;
  flag = ground arith;
}

module _ (t : MessageType) (p : List ℕ) (i : ℕ) (con rc : Connection) (size : ℕ)
    (w : IsStreamLinked t con rc size) (lo : 1 ≤ i) (hi : i ≤ con.config.max_streams) where
  abbrev m : Message
  m = numbered t p i con

  pub numbering : IsNumbering m
  unfolding send_options is_control with_stream
  numbering =
      let a = w.data_type in
      let b = w.streams in
      let c = w.plain in record { streamed = ground arith; no_compress = ground arith }

  not_cancelled : m.send.cancel_stream ≡ false
  unfolding send_options with_stream
  not_cancelled = refl

  pub numbered_id : m.send.stream_id ≡ i
  unfolding with_stream
  numbered_id = refl

  abbrev chunk : Bool → List ℕ → ℕ → Sent
  chunk b c k = record { msg = chunk_message m b c; mask = con.entropy k; packed = c }

  length-body : (b : Bool) (c : List ℕ) (k : ℕ) → length (body_of (chunk b c k)) ≡ length c + 2
  unfolding chunk_message
  length-body b c k = length-stream_body m c numbering.streamed not_cancelled

  chunk-Arrives :
      (b : Bool) (c : List ℕ) (k : ℕ) → Fits con.config.chunk_size c → Arrives rc size (chunk b c k)
  unfolding chunk_message send_options send_config with_stream
  chunk-Arrives b c k h =
      let e = length-body b c k in
      let z = numbering.no_compress in
      record {
        agreed = record {
          type_pos = w.type_pos;
          type_small = omega (arith, w.data_type);
          control_fits = λ q. absurd (omega (arith, w.data_type, q));
          compress_agreed = λ q. absurd cc;
          stream_agreed = λ q. w.streams_there;
          client_masks = w.roles;
          stream_room = λ q. omega (arith, e);
          size_word = omega (arith, e, h, w.small);
          size_allowed = λ q. omega (arith, e, h, w.allowed q);
        };
        ids = λ q. (lo, omega (arith, hi, w.ids_small));
        same_mask = w.same_mask;
        four_bytes = w.writable.masks k;
        fits = omega (arith, e, h, w.fits);
        data_frame = w.data_type;
      }

  pub stream-Arrives :
      (k : ℕ) (cs : List (List ℕ))
      → All (Fits con.config.chunk_size) cs
      → All (Arrives rc size) (on_the_way con.entropy k (frames m cs))
  unfolding frames on_the_way chunk_message
  stream-Arrives k [] h = tt
  stream-Arrives k (c ∷ []) (h, hs) = (chunk-Arrives true c k h, tt)
  stream-Arrives k (c ∷ d ∷ cs) (h, hs) = (
    chunk-Arrives false c k h,
    stream-Arrives (next_mask (chunk_message m false c) k) (d ∷ cs) hs,
  )

  pub stream-NoCancel :
      (k : ℕ) (cs : List (List ℕ)) → All NoCancel (on_the_way con.entropy k (frames m cs))
  unfolding frames on_the_way chunk_message send_options with_stream
  stream-NoCancel k [] = tt
  stream-NoCancel k (c ∷ []) = (ground arith, tt)
  stream-NoCancel k (c ∷ d ∷ cs) =
      (ground arith, stream-NoCancel (next_mask (chunk_message m false c) k) (d ∷ cs))

  chunk-IsPart : (b : Bool) (c : List ℕ) (k now : ℕ) → IsPart i b (received rc now (chunk b c k))
  unfolding chunk_message with_stream
  chunk-IsPart b c k now = stream-IsPart rc now (chunk b c k) w.data_type numbering.streamed

  stream-IsSequence :
      (clock : ℕ → ℕ) (n k : ℕ) (c : List ℕ) (cs : List (List ℕ))
      → IsSequence i (made clock n rc (on_the_way con.entropy k (frames m (c ∷ cs))))
  unfolding frames on_the_way made chunk_message
  stream-IsSequence clock n k c [] = chunk-IsPart true c k (clock n)
  stream-IsSequence clock n k c (d ∷ []) = (
    chunk-IsPart false c k (clock n),
    stream-IsSequence clock (suc n) (next_mask (chunk_message m false c) k) d [],
  )
  stream-IsSequence clock n k c (d ∷ e ∷ cs) = (
    chunk-IsPart false c k (clock n),
    stream-IsSequence clock (suc n) (next_mask (chunk_message m false c) k) d (e ∷ cs),
  )

  pub stream-IsTransfer :
      (clock : ℕ → ℕ) (n : ℕ) (c : List ℕ) (cs : List (List ℕ))
      → IsTransfer i
          (flatten (c ∷ cs))
          rc
          (deliver_sent clock n (on_the_way con.entropy con.drawn (frames m (c ∷ cs))) rc)
  stream-IsTransfer clock n c cs =
      let ss = on_the_way con.entropy con.drawn (frames m (c ∷ cs)) in
      let ordered : IsSequence i (made clock n rc ss) = stream-IsSequence clock n con.drawn c cs in
      let (whole, same, entity, complete) =
        list-IsTransfer i (made clock n rc ss) rc w.waits (w.idle i) (made-NotReading clock n rc ss)
          ordered in
      (
        whole,
        deliver_sent-made clock n ss rc rc (refl, refl, refl) (stream-NoCancel con.drawn (c ∷ cs))
            ∙ same,
        entity
            ∙ entities-made clock n rc con.entropy con.drawn (frames m (c ∷ cs))
            ∙ ap flatten (frames-payloads m (c ∷ cs)),
        complete,
      )

-- The bytes of the frames are those that the sender writes.
pub numbered-bytes :
    (masks : ℕ → List ℕ) (k : ℕ) (ms : List Message)
    → map bytes_of (on_the_way masks k ms) ≡ numbered_frames masks k ms
unfolding on_the_way numbered_frames
numbered-bytes masks k [] = refl
numbered-bytes masks k (m ∷ ms) =
    ap (λ t. numbered_frame m (masks k) ∷ t) (numbered-bytes masks (next_mask m k) ms)
