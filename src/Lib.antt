-- ===== src/Lib.antt =====
-- webson, a WebSocket library in Go, as a library of definitions and theorems.
--
-- The program. A connection (connection.go) sends and receives messages (message.go) over a network
-- connection that an HTTP upgrade has given it: `TakeOver` on the server's side (server.go), `Dial` on
-- the client's (client.go). Its options come from a configuration (config.go, const.go). A pool (pool.go)
-- holds connections by name, runs each on a goroutine of its own, and sends to many of them. Errors and
-- states are in errors.go and status.go.
--
-- The files.
--   Common: Boolean tests, lists, bits, big-endian words and the bytes of texts.
--   Errors: errors.go, status.go, and Go's pairs of a value and an error as a result.
--   Message: message.go. Close has `toBytes` and `ParseCloseCode`, Mask `setMask` and `maskPayload`,
--     Assemble `assemble`, Meta `parseMeta`, Split `split`, Collect `merge`, `Read` and `ReadIter`.
--   Config: config.go and const.go, `setup`.
--   Reader: the bufio.Reader that `Start` reads from, over a network that delivers pieces.
--   Connection: connection.go. Events has the handlers and `updateStatus`, Streams `patchMsg`, Write
--     `writeSingleFrame`, `Dispatch` and `DispatchReader`, Receive the reading and the delivery of one
--     frame in `Start`, Start its loop, Close `Close` and `cleanClose`, Ping `Ping` and `KeepPing`.
--     Bound has the functions that are bound to pings and pongs from the start.
--     Maps has the laws of the maps, Receive/Isolation keeps the streams apart, and Transfer follows a
--     message from one side to the other.
--   Pool: pool.go. `NewPool`, `Add` and `remove`, Broadcast the sending operations, Run the goroutines
--     and `Close`, Steps all of these in any order.
--   Handshake: Server `TakeOver`; Dial `Dial`, `negotiate` and `ReStart`, of which Request has the bytes
--     of the request, Answer the loop over the answer, and Client what is behind it; Url `parseUrl`,
--     Decimal the numbers in header fields. Fields is net/http's Header and Lines the `ReadLine` of
--     bufio. Agreement and Whole take both sides together.
--   Tests: examples and small runs.
--
-- How the code is read. An operation is a function from a state to a state, and a lock that is held
-- from the start of an operation to its end makes it one step. A lock that is never given back is a
-- state of its own, and an operation that waits for it has the result that it blocks. What a connection
-- does to the outside is kept in its state: the frames on the network, and the calls of handlers. The
-- user's handlers are named by numbers. Numbers are natural numbers, bytes are numbers below 256, and
-- the conversions of the source to 8, 16 and 64 bits are written out. A slice that the source masks in
-- place is a result of the operation, so that the caller's view of it can be stated.
--
-- Fuel. The search for a stream id has one round for each id and one more: a round passes over one id,
-- and once it has started over one round decides. The loop of `Start` has one round for each byte that
-- the network delivers and one more: a frame takes two bytes at least. `KeepPing` has no end in the
-- source for a connection that stays open, and its first rounds are modelled. The loop of `negotiate`
-- has one round for each byte and one more: a line takes one byte at least.
--
-- Parameters. compress/flate, the hash of the accept key, random masks and keys, the clock, the network
-- and what dialing it gives, net/http's parsing of the request, and the HTTP response writer.
--
-- Not modelled: TLS, the deadlines, the time that a step takes, a full channel of `ReadIter`, the
-- interleaving of steps on one connection by different goroutines, letters outside ASCII in the header
-- keys that `negotiate` reads (the model folds the case of ASCII letters only), and the examples of the
-- repository.
pub mod Common
pub mod Errors
pub mod Message
pub mod Config
pub mod Reader
pub mod Connection
pub mod Pool
pub mod Handshake
mod Tests
