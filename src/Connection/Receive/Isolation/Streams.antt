-- ===== src/Connection/Receive/Isolation/Streams.antt =====
-- Any number of frames: what a stream sees of those of the others.
use webson.Message.{Message}
use webson.Connection.{Connection}
