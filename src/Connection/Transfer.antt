-- ===== src/Connection/Transfer.antt =====
-- From `Dispatch` on one side to the handler on the other: one message,
-- without streams or on a stream of its own.
pub mod Made
pub mod Sequence
pub mod Linked
pub mod Whole
pub mod Streamed
pub mod Failing
pub mod Numbered
pub mod Streams
