-- ===== src/Message/Split.antt =====
-- message.go: `split` cuts the payload of an outgoing message into chunks.
pub mod Chunks
pub mod Laws
use webson.Common.{
  ℕ, zero, suc, ◌+◌, ◌-◌, ◌*◌, ◌/◌, Bool, true, false, if◌then◌else◌, ltb, ◌==◌, List, [], ◌∷◌,
  length, take, drop,
}
use webson.Message.{Message, no_receive}

-- One frame of the message: it shares the options, and holds a slice of the payload.
unfoldable pub chunk_message : Message → Bool → List ℕ → Message
chunk_message m complete payload = record {
  send = m.send;
  receive = no_receive;
  config = m.config;
  is_complete = complete;
  mask = [];
  entity = [];
  payload = payload;
  msg_type = m.msg_type;
}

-- `originSize / sizeLimit`, rounded up. The source panics on the limit 0, which `setup` excludes.
unfoldable pub chunk_count : ℕ → ℕ → ℕ
chunk_count size limit =
    let chunks = size / limit in if ltb (chunks * limit) size then chunks + 1 else chunks

-- `m.payload[l:r]` for the chunk `i`.
unfoldable pub chunk_payload : List ℕ → ℕ → ℕ → List ℕ
chunk_payload payload limit i =
    let size = length payload in
    let l = i * limit in
    let r = if ltb size ((i + 1) * limit) then size else (i + 1) * limit in
    take (r - l) (drop l payload)

-- The loop from chunk `i` on, with `left` chunks to go.
unfoldable pub split_from : Message → ℕ → ℕ → ℕ → ℕ → List Message
unfolding chunk_message chunk_payload
split_from m limit chunks zero i = []
split_from m limit chunks (suc left) i =
    chunk_message m (i == chunks - 1) (chunk_payload m.payload limit i)
    ∷ split_from m limit chunks left (i + 1)

unfoldable pub split : Message → ℕ → List Message
unfolding split_from chunk_count
split m limit =
    let chunks = chunk_count (length m.payload) limit in
    if length m.payload == 0
    then chunk_message m true [] ∷ []
    else split_from m limit chunks chunks 0
