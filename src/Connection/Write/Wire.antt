-- ===== src/Connection/Write/Wire.antt =====
-- connection.go: what `Dispatch` puts on the network, and what it leaves in the caller's slice.
use webson.Common.{
  ℕ, ◌<◌, ◌≡◌, refl, ap, ◌∙◌, false, List, [], ◌∷◌, none, length, arith, All, flatten,
}
use webson.Message.{Message, MessageType}
use webson.Message.Assemble.{Flate}
use webson.Message.Split.{split, chunk_message}
use webson.Message.Split.Chunks.{cut, frames, split-frames}
use webson.Connection.{Connection}
use webson.Connection.Streams.{patch_msg, patched, send_options, send_config}
use webson.Connection.Write.{dispatched, write_frames, dispatch, new_message, send_patched}
use webson.Connection.Write.Frames.{
  IsWritable, IsPlain, left_behind, after_frames, write_frames_lem,
}
use webson.Message.Split.Laws.{flatten-cut}

pub frames-IsPlain :
    (m : Message) (cs : List (List ℕ))
    → m.send.streamlize ≡ false
    → m.send.do_compress ≡ false
    → All IsPlain (frames m cs)
unfolding frames chunk_message
frames-IsPlain m [] s z = tt
frames-IsPlain m (c ∷ []) s z = (record { no_stream = s; no_compress = z; empty = refl }, tt)
frames-IsPlain m (c ∷ d ∷ cs) s z =
    (record { no_stream = s; no_compress = z; empty = refl }, frames-IsPlain m (d ∷ cs) s z)

-- The message that `Dispatch` splits.
abbrev pub outgoing : MessageType → List ℕ → Connection → Message
outgoing t p con = record (new_message t p con) {
  send = send_options con (new_message t p con);
  config = send_config con;
}

-- Its frames.
abbrev pub outgoing_frames : MessageType → List ℕ → Connection → List Message
outgoing_frames t p con = frames (outgoing t p con) (cut (length p) con.config.chunk_size p)

pub patch_msg-plain :
    (m : Message) (con : Connection)
    → (send_options con m).streamlize ≡ false
    → patch_msg m con
      ≡ patched (record m { send = send_options con m; config = send_config con }) con
unfolding patch_msg
patch_msg-plain m con s = ground arith

pub dispatch-patched :
    (f : Flate) (t : MessageType) (p : List ℕ) (con : Connection) (m : Message)
    → patch_msg (new_message t p con) con ≡ patched m con
    → dispatch f t p con ≡ write_frames f (split m con.config.chunk_size) con
unfolding dispatch
dispatch-patched f t p con m e = ap (send_patched f p) e

-- A message that takes neither a stream id nor compression, on a connection that is ready and whose
-- network works: each chunk of the payload goes out as one frame, in order, with a mask of its own
-- for a client, and the caller's slice is left with the bytes as they were sent.
pub dispatch_lem :
    (f : Flate) (t : MessageType) (p : List ℕ) (con : Connection)
    → (send_options con (new_message t p con)).streamlize ≡ false
    → (send_options con (new_message t p con)).do_compress ≡ false
    → 0 < con.config.chunk_size
    → IsWritable con
    → dispatch f t p con
      ≡ dispatched none
          (left_behind con.entropy con.drawn (outgoing_frames t p con))
          (after_frames (outgoing_frames t p con) con)
dispatch_lem f t p con s z size w =
    let m = outgoing t p con in
    dispatch-patched f t p con m (patch_msg-plain (new_message t p con) con s)
    ∙ ap (λ ms. write_frames f ms con) (split-frames m con.config.chunk_size size)
    ∙ write_frames_lem f (outgoing_frames t p con) con
        (frames-IsPlain m (cut (length p) con.config.chunk_size p) s z) w

left_behind-unmasked :
    (masks : ℕ → List ℕ) (k : ℕ) (m : Message) (cs : List (List ℕ))
    → m.send.do_mask ≡ false
    → left_behind masks k (frames m cs) ≡ flatten cs
unfolding left_behind frames chunk_message
left_behind-unmasked masks k m [] e = refl
left_behind-unmasked masks k m (c ∷ []) e = rw e
left_behind-unmasked masks k m (c ∷ d ∷ cs) e = rw (e, left_behind-unmasked masks k m (d ∷ cs) e)

-- What the frames of Dispatch leave in the caller's slice on a server connection is what was there.
pub left-of-server :
    (t : MessageType) (p : List ℕ) (con : Connection)
    → con.is_client ≡ false
    → left_behind con.entropy con.drawn (outgoing_frames t p con) ≡ p
unfolding send_options
left-of-server t p con h =
    left_behind-unmasked con.entropy con.drawn (outgoing t p con)
      (cut (length p) con.config.chunk_size p) h
    ∙ flatten-cut (length p) con.config.chunk_size p
