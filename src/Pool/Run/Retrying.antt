-- ===== src/Pool/Run/Retrying.antt =====
-- pool.go: what the retries of `startClient` do.
use webson.Common.{◌≡◌, ℕ, zero, suc, if◌then◌else◌, List, ◌++◌, All}
use webson.Errors.{status_ready}
use webson.Connection.{Connection, Call, calls_status, handler_status}
use webson.Connection.Events.{update_status}
use webson.Connection.Start.{finish}
use webson.Pool.Run.{Run}
use webson.Reader

-- One run that reads nothing.
unfoldable pub restart : Connection → Connection
unfolding finish update_status
restart con = finish (update_status status_ready con)

unfoldable pub restarted : ℕ → Connection → Connection
restarted zero con = con
restarted (suc n) con = restarted n (restart con)

-- The runs behind the first one: as many as there are retries, unless the pool is closed in between.
unfoldable pub retries : (ℕ → Run) → ℕ → ℕ
retries runs zero = 0
retries runs (suc retry) = if (runs (suc retry)).pool_closed then 0 else suc (retries runs retry)

abbrev pub IsStatusCall : Call → Type 0
IsStatusCall (calls_status a s) = Unit
IsStatusCall (handler_status h s) = Unit
IsStatusCall _ = ⊥

-- Nothing is written, and no handler of messages is called.
abbrev pub IsUnheard : Connection → Connection → Type 0
IsUnheard con con' =
    (con'.wire ≡ con.wire)
    × (more : List Call) × (con'.calls ≡ con.calls ++ more)
    × All IsStatusCall more
