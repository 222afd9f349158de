-- ===== src/Connection/Streams.antt =====
-- connection.go: `patchMsg` gives an outgoing message its options and, on a stream connection, the
-- next free stream id.
pub mod Alloc
pub mod Patch
use webson.Common.{
  ℕ, zero, suc, ◌+◌, ◌*◌, ◌≡◌, Bool, true, false, not, ◌&&◌, ◌||◌, if◌then◌else◌, ltb, ◌==◌, List,
  [], ◌∷◌, Option, none, some,
}
use webson.Errors.{Error, new_error}
use webson.Message.{Message, MsgSendOptions, MsgConfig, is_control}
use webson.Connection.{Connection}

unfoldable pub in_use : ℕ → List ℕ → Bool
in_use i [] = false
in_use i (j ∷ ids) = (j == i) || in_use i ids

-- `delete(con.inUseStreams, id)`.
unfoldable pub release_id : ℕ → List ℕ → List ℕ
release_id i [] = []
release_id i (j ∷ ids) = if j == i then release_id i ids else j ∷ release_id i ids

-- How the loop ends: with an id, or with the id that it refused. `out_of_fuel` is no Go value.
pub data Search : Type 0 where
  found : ℕ → Search
  spent : ℕ → Search
  out_of_fuel : Search

-- One round: the next id, and whether the search has started over by now.
abbrev pub next_id : ℕ → ℕ → ℕ
next_id max last = if ltb max (last + 1) then 1 else last + 1

abbrev pub wraps : ℕ → ℕ → Bool → Bool
wraps max last loop = ltb max (last + 1) || loop

unfoldable pub find_id : ℕ → ℕ → List ℕ → ℕ → Bool → Search
unfolding in_use
find_id zero max ids last loop = out_of_fuel
find_id (suc fuel) max ids last loop =
    let rest = find_id fuel max ids (next_id max last) (wraps max last loop) in
    if in_use (next_id max last) ids
    then (if wraps max last loop then spent (next_id max last) else rest)
    else found (next_id max last)

-- After at most `max_streams` rounds the search has started over.
unfoldable pub search_id : Connection → Search
search_id con =
    find_id (con.config.max_streams + 1) con.config.max_streams con.in_use_streams con.last_stream
      false

-- The options and the configuration of an outgoing message.
unfoldable pub send_options : Connection → Message → MsgSendOptions
unfolding is_control
send_options con m = record {
  do_compress = con.nego.compressable && not (is_control m);
  compress_level = con.nego.compress_level;
  streamlize = con.nego.streamable && not (is_control m);
  stream_id = 0;
  cancel_stream = false;
  do_mask = con.is_client;
}

unfoldable pub send_config : Connection → MsgConfig
send_config con = record {
  negotiate = con.nego;
  extra_mask = con.config.private_mask;
  trigger_on_start = con.config.trigger_on_start;
  synchronized = false;
}

-- What a call of `patchMsg` comes to. `blocks` is a call that waits for ever, since nobody is going
-- to unlock `streamIdLock`.
pub data Patched : Type 0 where
  patched : Message → Connection → Patched
  refused : Error → Message → Connection → Patched
  blocks : Patched

unfoldable pub with_stream : Message → ℕ → Message
with_stream m i = record m { send = record send { stream_id = i } }
  where
    open m use {send}

-- The refusal returns with the lock held.
unfoldable pub take_id : Message → Connection → Patched
unfolding search_id with_stream
take_id m con = if con.stream_id_locked then blocks else elim (search_id con) [
  | found i ↦
      patched (with_stream m i)
        (record con { last_stream = i; in_use_streams = i ∷ con.in_use_streams })
  | spent i ↦
      refused (new_error "stream ids spent") m
        (record con { last_stream = i; stream_id_locked = true })
  | out_of_fuel ↦ blocks
]

unfoldable pub patch_msg : Message → Connection → Patched
unfolding send_options send_config take_id
patch_msg m con =
    let m' = record m { send = send_options con m; config = send_config con } in
    if m'.send.streamlize then take_id m' con else patched m' con
