-- ===== src/Connection/Ping.antt =====
-- connection.go: `Ping`, `RefreshPongTime` and the loop `KeepPing`. Times are seconds.
pub mod Unanswered
use webson.Common.{
  ℕ, ◌+◌, ◌≤◌, ◌≡◌, refl, ap, ◌∙◌, Bool, true, false, none, some, if◌then◌else◌, ltb, List, [], ◌∷◌,
  All, arith,
}
use webson.Errors.{status_eq, status_closed, status_ready, status_timeout}
use webson.Message.{ping_message}
use webson.Message.Assemble.{Flate}
use webson.Connection.{Connection}
use webson.Connection.Events.{update_status}
use webson.Connection.Write.{Dispatched, dispatched, dispatch_blocks, dispatch}

unfoldable pub ping : Flate → ℕ → Connection → Dispatched
ping f now con = dispatch f ping_message [] (record con { last_ping = now })

unfoldable pub refresh_pong_time : ℕ → Connection → Connection
refresh_pong_time now con = record con { last_pong = now }

-- The second half of a round: the loop ends, or it goes on with the flag `timeout`.
pub data Check : Type 0 where
  ends : Check
  goes_on : Bool → Connection → Check

-- The difference of the source is signed.
unfoldable pub check_pong : ℕ → Bool → Connection → Check
check_pong pong_timeout timeout con =
    if ltb 0 pong_timeout
    then (if ltb (con.last_ping + pong_timeout) con.last_pong
        then (if status_eq con.status status_closed
            then ends
            else goes_on true (update_status status_timeout con))
        else if timeout
        then goes_on timeout (update_status status_ready con)
        else goes_on timeout con)
    else goes_on timeout con

-- One round: when it pings, and what happens to the connection while it sleeps.
pub record Round : Type 0 where
  pub now : ℕ
  pub meanwhile : Connection → Connection

-- The connection after a ping. A control message does not wait for a stream id.
abbrev pub pinged : Connection → Dispatched → Connection
pinged con dispatch_blocks = con
pinged con (dispatched e p con') = con'

abbrev pub ping_round : Flate → Round → Connection → Connection
ping_round f r con = r.meanwhile (pinged con (ping f r.now con))

-- Some rounds of the loop, the flag and the connection after them, and whether it still runs. The
-- `break` on the error of a ping leaves only the `switch`, so that error does not matter.
abbrev pub next_round :
    (Bool → Connection → Bool × Bool × Connection) → Connection → Check → Bool × Bool × Connection
next_round rest con ends = (false, false, con)
next_round rest con (goes_on timeout con') = rest timeout con'

unfoldable pub keep_ping : Flate → ℕ → List Round → Bool → Connection → Bool × Bool × Connection
unfolding check_pong ping
keep_ping f pong_timeout [] timeout con = (true, timeout, con)
keep_ping f pong_timeout (r ∷ rs) timeout con =
    next_round (keep_ping f pong_timeout rs) (ping_round f r con)
      (check_pong pong_timeout timeout (ping_round f r con))

-- The rounds alone.
unfoldable pub ping_rounds : Flate → List Round → Connection → Connection
unfolding ping
ping_rounds f [] con = con
ping_rounds f (r ∷ rs) con = ping_rounds f rs (ping_round f r con)

-- How `prepare` ends. Without timeouts, which `setup` fills in, Go dereferences nil.
pub data PingLoop : Type 0 where
  no_loop : PingLoop
  keeps_ping : ℕ → ℕ → PingLoop
  no_timeouts : PingLoop

unfoldable pub start_ping : Connection → PingLoop
start_ping con =
    if ltb 0 con.config.ping_interval
    then elim con.config.timeout [
      | none ↦ no_timeouts
      | some t ↦ keeps_ping con.config.ping_interval t.pong_timeout
    ]
    else no_loop
