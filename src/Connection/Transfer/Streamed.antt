-- ===== src/Connection/Transfer/Streamed.antt =====
-- A message from `DispatchReader` to the handler.
use webson.Common.{ℕ, ◌+◌, ◌≡◌, refl, List, [], ◌∷◌, ◌++◌, none, All, length, flatten}
use webson.Errors.{eof}
use webson.Message.{MessageType}
use webson.Message.Assemble.{Flate}
use webson.Message.Split.Chunks.{frames}
use webson.Message.Split.Laws.{Fits}
use webson.Connection.{Connection}
use webson.Connection.Write.{dispatched, dispatch_reader, Source}
use webson.Connection.Write.Frames.{after_frames, sent_frames}
use webson.Connection.Write.Wire.{outgoing, frames-IsPlain}
use webson.Connection.Write.Streamed.{streamed_frames, dispatch_reader_lem}
use webson.Connection.Receive.Steps.{with_buffer}
use webson.Connection.Start.{serve}
use webson.Connection.Start.Frames.{deliver_sent}
use webson.Reader.{Reader}
use webson.Connection.Transfer.Made.{serve-wire, on_the_way, bytes-on_the_way}
use webson.Connection.Transfer.Sequence.{IsTransfer}
use webson.Connection.Transfer.Linked.{IsLinked, frames-Arrives}
use webson.Connection.Transfer.Whole.{chunks-IsTransfer}

-- What the reads of a source give, one after the other.
abbrev pub reads_of : Source → List (List ℕ)
reads_of s = s.reads ++ (s.last ∷ [])

-- The frames that `DispatchReader` puts on the network.
abbrev pub streamed_wire : MessageType → Source → Connection → List (List ℕ)
streamed_wire t s con = sent_frames con.entropy con.drawn (streamed_frames t s con)

reads-IsTransfer :
    (t : MessageType) (reads : List (List ℕ)) (last : List ℕ) (con rc : Connection) (size : ℕ)
    (clock : ℕ → ℕ) (n : ℕ)
    → IsLinked t [] con rc size
    → IsTransfer 0 (flatten (reads ++ (last ∷ []))) rc (
        deliver_sent clock n
          (on_the_way con.entropy con.drawn (frames (outgoing t [] con) (reads ++ (last ∷ []))))
          rc)
reads-IsTransfer t [] last con rc size clock n w =
    chunks-IsTransfer t [] last [] con rc size clock n w
reads-IsTransfer t (c ∷ reads) last con rc size clock n w =
    chunks-IsTransfer t [] c (reads ++ (last ∷ [])) con rc size clock n w

-- A source of data that ends at its end of file, with reads of at most a chunk, on a connection
-- without streams and compression, whose sender works and whose receiver has room for a chunk,
-- nothing pending and handlers that wait for the whole of a message: DispatchReader succeeds and
-- appends one frame for each read to what was written, and once they are in the buffer of the
-- receiver, with any bytes behind them, the loop of Start takes one round for each and calls the
-- handlers exactly once, with a complete message that has the bytes of all the reads.
pub dispatch_reader-IsTransfer :
    (f : Flate) (t : MessageType) (s : Source) (con rc : Connection) (r : Reader) (rest : List ℕ)
    (fuel : ℕ) (clock : ℕ → ℕ) (n : ℕ)
    → IsLinked t [] con rc r.size
    → s.ending ≡ eof
    → All (Fits con.config.chunk_size) (reads_of s)
    → r.buffered ≡ flatten (streamed_wire t s con) ++ rest
    → (con' rc' : Connection) × (dispatch_reader f t s con ≡ dispatched none [] con')
      × (con'.wire ≡ con.wire ++ streamed_wire t s con)
      × (serve (length (streamed_wire t s con) + fuel) f clock n rc r
          ≡ serve fuel f clock (n + length (streamed_wire t s con)) rc' (with_buffer rest r))
      × IsTransfer 0 (flatten (reads_of s)) rc rc'
dispatch_reader-IsTransfer f t s con rc r rest fuel clock n w ending reads e =
    let ms = streamed_frames t s con in
    let ss = on_the_way con.entropy con.drawn ms in
    let plain = frames-IsPlain (outgoing t [] con) (reads_of s) w.no_stream w.no_compress in
    let bytes = bytes-on_the_way con.entropy con.drawn ms plain in
    let rc' = deliver_sent clock n ss rc in
    (
      after_frames ms con,
      rc',
      dispatch_reader_lem f t s con w.no_stream w.no_compress w.writable ending,
      refl,
      serve-wire fuel f clock n rc r ss (streamed_wire t s con) rest bytes
          (frames-Arrives t [] con rc r.size w con.drawn (reads_of s) reads) e,
      reads-IsTransfer t s.reads s.last con rc r.size clock n w,
    )
