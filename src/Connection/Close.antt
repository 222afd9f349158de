-- ===== src/Connection/Close.antt =====
-- connection.go: closing. `makeSureClose` runs when the close timeout is over.
use webson.Common.{true, not, ◌&&◌, if◌then◌else◌, [], map}
use webson.Errors.{status_closed}
use webson.Message.{Message, CloseCode, close_message}
use webson.Message.Assemble.{Flate}
use webson.Message.Close.{to_bytes}
use webson.Connection.{Connection}
use webson.Connection.Events.{update_status}
use webson.Connection.Write.{dispatched, dispatch_blocks, dispatch}

-- The channel of a message that will not be completed is closed.
unfoldable pub close_pool : Message → Message
close_pool m =
    if not m.is_complete && m.receive.pool_reading
    then record m { receive = record receive { pool_closed = true } }
    else m
  where
    open m use {receive}

unfoldable pub clean_close : Connection → Connection
unfolding close_pool
clean_close con = record con {
  closed = true;
  raw_closed = true;
  pending_streams = map (λ (i, m). (i, close_pool m)) pending_streams;
}
  where
    open con use {pending_streams}

-- The first call also starts the timer of `makeSureClose`: `start_close` says that it runs.
unfoldable pub close_update : Connection → Connection
unfolding update_status
close_update con = update_status status_closed (record con { start_close = true })

unfoldable pub make_sure_close : Connection → Connection
unfolding clean_close
make_sure_close con = if con.closed then con else clean_close con

-- The error of the dispatch is dropped. A control message takes no stream id, so it never blocks.
unfoldable pub close_with_code : Flate → CloseCode → Connection → Connection
unfolding close_update
close_with_code f c con = elim (dispatch f close_message (to_bytes c) con) [
  | dispatched e p con' ↦ close_update con'
  | dispatch_blocks ↦ con
]

abbrev pub normal_closure : CloseCode
normal_closure = record { code = 1000; reason = [] }

unfoldable pub close : Flate → Connection → Connection
unfolding close_with_code
close f con = close_with_code f normal_closure con
