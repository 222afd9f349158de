-- ===== src/Message/Collect.antt =====
-- message.go: `merge`, `Read` and `ReadIter` collect the frames of a received message. A bytes.Buffer
-- cannot fail, so `merge` has no error; the lock is free again when each of them returns.
pub mod Delivery
use webson.Common.{
  ℕ, ◌≡◌, Bool, true, false, not, ◌&&◌, ◌||◌, if◌then◌else◌, ltb, List, [], ◌∷◌, ◌++◌, Option, none,
  some,
}
use webson.Errors.{Error, msg_yet_complete, new_error, Result, ok, err}
use webson.Message.{Message}
use webson.Message.Assemble.{Flate}

-- A frame for a channel that is being read.
abbrev pub to_pool : Message → Message → Message
to_pool m more = record m {
  receive = record receive {
    msg_pool = receive.msg_pool ++ (more.entity ∷ []);
    pool_closed = receive.pool_closed || more.is_complete;
  };
}
  where
    open m use {receive}

-- A frame for the buffer.
abbrev pub to_buffer : Message → Message → Message
to_buffer m more = record m {
  receive = record receive { updated_at = more.receive.created_at };
  is_complete = more.is_complete;
  entity = entity ++ more.entity;
}
  where
    open m use {receive, entity}

unfoldable pub merge : Message → Message → Message
merge m more =
    if m.config.trigger_on_start && m.receive.pool_reading then to_pool m more else to_buffer m more

-- The bytes that end a flushed stream, and the empty last block.
abbrev pub deflate_tail : List ℕ
deflate_tail = 0x00 ∷ 0x00 ∷ 0xff ∷ 0xff ∷ 0x01 ∷ 0x00 ∷ 0x00 ∷ 0xff ∷ 0xff ∷ []

unfoldable pub read_guard : Message → Option Error
read_guard m =
    if m.config.trigger_on_start
    then (if m.config.synchronized
        then some (new_error "synchronize read with triggerOnStart")
        else if m.is_complete
        then none
        else some msg_yet_complete)
    else none

-- Reading a compressed message leaves the buffer, with the tail; else it is drained. What comes out
-- ahead of an error is returned with it.
unfoldable pub read_entity : Flate → Message → (List ℕ × Option Error) × Message
read_entity f m =
    if m.receive.compressed
    then (let whole = m.entity ++ deflate_tail in
        let (p, e) = f.inflate whole in ((p, e), record m { entity = whole }))
    else ((m.entity, none), record m { entity = [] })

unfoldable pub read : Flate → Message → (List ℕ × Option Error) × Message
unfolding read_guard read_entity
read f m = elim (read_guard m) [ some e ↦ (([], some e), m) | none ↦ read_entity f m ]

-- `none` is a panic. What was received so far is the first item of the channel.
unfoldable pub read_iter : Flate → ℕ → Message → Option Message
unfolding read_entity
read_iter f chan_size m =
    if ltb chan_size 1
    then none
    else if m.config.synchronized
    then none
    else (let ((received, e), m') = read_entity f m in
        some (record m' {
          receive = record receive {
            pool_reading = true;
            msg_pool = received ∷ [];
            pool_closed = m.is_complete;
          };
        }))
  where
    open m use {receive}
