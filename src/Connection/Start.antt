-- ===== src/Connection/Start.antt =====
-- connection.go: `Start`, the loop that serves a connection until it ends. The handlers' own code is
-- not part of the connection: their calls are collected. `clock n` is the time of the n-th frame.
pub mod Total
pub mod Frames
use webson.Common.{ℕ, zero, suc, ◌+◌, ◌≡◌, Bool, if◌then◌else◌, List, Option, none, some, length}
use webson.Errors.{Error, new_error, status_ready, status_closed}
use webson.Message.{Message}
use webson.Message.Assemble.{Flate}
use webson.Connection.{Connection, delete}
use webson.Connection.Events.{update_status}
use webson.Connection.Close.{clean_close, close_with_code}
use webson.Connection.Receive.{
  Stop, returns, malformed, panics, Try, done, stop, read_frame, deliver,
}
use webson.Reader.{Reader, remaining}

-- How `Start` ends; `out_of_fuel` is no Go value.
pub data Served : Type 0 where
  served : Option Error → Connection → Served
  panicked : Connection → Served
  out_of_fuel : Served

unfoldable pub stopped : Flate → Stop → Connection → Served
unfolding delete
stopped f (returns e) con = served e con
stopped f (malformed c) con = served (some (new_error "malformed meta")) (close_with_code f c con)
stopped f (panics none) con = panicked con
stopped f (panics (some i)) con =
    panicked (record con { pending_streams = delete i con.pending_streams })

unfoldable pub serve : ℕ → Flate → (ℕ → ℕ) → ℕ → Connection → Reader → Served
unfolding stopped
serve zero f clock n con r = out_of_fuel
serve (suc fuel) f clock n con r = elim (read_frame con (clock n) r) [
  | stop s ↦ stopped f s con
  | done (m, cancel, r') ↦
      let (con', ends) = deliver m cancel con in
      let rest = serve fuel f clock (suc n) con' r' in if ends then served none con' else rest
]

-- The deferred function.
unfoldable pub finish : Connection → Connection
unfolding update_status clean_close
finish con = clean_close (update_status status_closed con)

abbrev pub finish_served : Served → Served
finish_served (served e con) = served e (finish con)
finish_served (panicked con) = panicked (finish con)
finish_served out_of_fuel = out_of_fuel

-- A round takes a byte at least.
unfoldable pub start : Flate → (ℕ → ℕ) → Connection → Reader → Served
unfolding serve update_status
start f clock con r =
    finish_served (serve (length (remaining r) + 1) f clock 0 (update_status status_ready con) r)
