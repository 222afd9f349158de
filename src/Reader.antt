-- ===== src/Reader.antt =====
-- Go's bufio.Reader over a network connection, as `Start` uses it. `pending` is what the network will
-- hand over, in pieces: one read of the network returns one of them, or as much of it as there is
-- room for. Behind the last piece every read returns the error `ending`, which is io.EOF if the
-- other side closed the connection. `behind` is what an earlier read left in the buffer behind the
-- bytes that are buffered, if they do not end where the buffer ends.
pub mod Laws
use webson.Common.{
  ℕ, zero, suc, ◌+◌, ◌-◌, ◌≤◌, ◌<◌, ◌≡◌, refl, Bool, true, false, ◌&&◌, if◌then◌else◌, ltb, leb,
  ◌==◌, List, [], ◌∷◌, ◌++◌, Option, none, some, length, take, drop, arith, flatten,
}
use webson.Errors.{Error, buffer_full}

pub record Reader : Type 0 where
  pub size : ℕ
  pub buffered : List ℕ
  pub pending : List (List ℕ)
  pub ending : Error
  pub behind : Option ℕ

-- `bufio.NewReaderSize`: never below 16 bytes.
unfoldable pub new_reader : ℕ → List (List ℕ) → Error → Reader
new_reader size pending ending = record {
  size = if ltb size 16 then 16 else size;
  buffered = [];
  pending = pending;
  ending = ending;
  behind = some 0;
}

-- The network fills at most `room` bytes.
unfoldable pub fetch : ℕ → List ℕ → List (List ℕ) → List ℕ × List (List ℕ)
fetch room piece pending =
    if leb (length piece) room
    then (piece, pending)
    else (take room piece, drop room piece ∷ pending)

abbrev take_out : ℕ → List ℕ → Reader → List ℕ × Option Error × Reader
take_out n bytes r = (take n bytes, none, record r { buffered = drop n bytes })

-- `Read` of a slice of `n` bytes: at most one read of the network, and only if nothing is buffered.
-- It may return fewer bytes.
unfoldable pub read_empty : ℕ → List (List ℕ) → Reader → List ℕ × Option Error × Reader
unfolding fetch
read_empty n [] r = ([], some r.ending, r)
read_empty n (piece ∷ pending) r =
    let (got, rest) = fetch r.size piece pending in take_out n got (record r { pending = rest })

unfoldable pub read : ℕ → Reader → List ℕ × Option Error × Reader
unfolding read_empty
read n r = elim r.buffered [ [] ↦ read_empty n r.pending r | b ∷ bs ↦ take_out n (b ∷ bs) r ]

-- The loop of `Peek`: read on until `n` bytes are there, the buffer is full, or the network ends.
unfoldable pub fill : ℕ → ℕ → List ℕ → List (List ℕ) → List ℕ × List (List ℕ)
fill n size buffered [] = (buffered, [])
fill n size buffered (piece ∷ pending) =
    let room = size - length buffered in
    let more = fill n size (buffered ++ piece) pending in
    if ltb (length buffered) n && ltb (length buffered) size
    then (if leb (length piece) room
        then more
        else (buffered ++ take room piece, drop room piece ∷ pending))
    else (buffered, piece ∷ pending)

abbrev pub filled : Reader → List ℕ → List (List ℕ) → Reader
filled r bytes rest = record r { buffered = bytes; pending = rest }

unfoldable pub peek_filled : ℕ → Reader → List ℕ → List (List ℕ) → List ℕ × Option Error × Reader
peek_filled n r bytes rest =
    if ltb r.size n
    then (bytes, some buffer_full, filled r bytes rest)
    else if ltb (length bytes) n
    then (bytes, some r.ending, filled r bytes rest)
    else (take n bytes, none, filled r bytes rest)

-- `Peek` does not take the bytes out: `discard` does.
unfoldable pub peek : ℕ → Reader → List ℕ × Option Error × Reader
unfolding fill peek_filled
peek n r = let (bytes, rest) = fill n r.size r.buffered r.pending in peek_filled n r bytes rest

unfoldable pub discard : ℕ → Reader → Reader
discard n r = record r { buffered = drop n buffered }
  where
    open r use {buffered}

-- What stands in the buffer behind the first byte that is buffered: a slice of one byte that `Peek`
-- returned has it in its capacity.
unfoldable pub next_byte : Reader → Option ℕ
next_byte r = elim r.buffered [ b ∷ c ∷ bs ↦ some c | b ∷ [] ↦ r.behind | [] ↦ r.behind ]

-- All that the reader will ever see.
abbrev pub remaining : Reader → List ℕ
remaining r = r.buffered ++ flatten r.pending
