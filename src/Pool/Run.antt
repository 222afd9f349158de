-- ===== src/Pool/Run.antt =====
-- pool.go: the goroutine of each connection, and the end of the pool.
pub mod Retrying
use webson.Common.{
  ◌≡◌, sym, ◌∙◌, ap, Bool-cases, inl, inr, ℕ, zero, suc, Bool, true, ◌&&◌, if◌then◌else◌, leb, List,
  [], ◌∷◌, Option, none, some, length,
}
use webson.Message.Assemble.{Flate}
use webson.Connection.{Connection}
use webson.Connection.Close.{close}
use webson.Connection.Start.{Served, served, panicked, out_of_fuel, start}
use webson.Connection.Start.Total.{IsDown, Ends, start-Ends}
use webson.Pool.{Pool, update, remove}
use webson.Reader.{Reader, new_reader}
use webson.Errors.{Error, io_error}

abbrev pub after_start : (Connection → Option Connection) → Served → Option Connection
after_start next (served e con) = next con
after_start next (panicked con) = none
after_start next out_of_fuel = none

-- What the network gives to each run, if it is open still, with its clock, and whether the pool is closed after it.
pub record Run : Type 0 where
  pub reader : Reader
  pub clock : ℕ → ℕ
  pub pool_closed : Bool

-- Once the network connection is closed, every read of it fails.
abbrev pub closed_error : Error
closed_error = io_error 0

abbrev pub network : Connection → Reader → Reader
network con r = if con.raw_closed then new_reader con.config.buffer_size [] closed_error else r

-- `Start` reads from the network connection that it has; nothing replaces one that is closed.
unfoldable pub start_run : Flate → Run → Connection → Served
start_run f run con = start f run.clock con (network con run.reader)

-- The loop of `startClient`, with `retry` more runs; `runs n` is the one with `n` retries left.
unfoldable pub run_client : Flate → (ℕ → Run) → ℕ → Connection → Option Connection
unfolding start_run
run_client f runs zero con = after_start some (start_run f (runs 0) con)
run_client f runs (suc retry) con =
    after_start
      (λ con'.
        let again = run_client f runs retry con' in
        if (runs (suc retry)).pool_closed then some con' else again)
      (start_run f (runs (suc retry)) con)

abbrev pub then_remove : ℕ → Pool → Option Connection → Option Pool
then_remove c p none = none
then_remove c p (some con) = remove c (record p { cons = update c con p.cons })

unfoldable pub start_client : Flate → (ℕ → Run) → ℕ → Pool → Option Pool
unfolding run_client
start_client f runs c p = then_remove c p (run_client f runs p.config.client_retry (p.cons c))

unfoldable pub start_server : Flate → Run → ℕ → Pool → Option Pool
unfolding start_run
start_server f run c p = then_remove c p (after_start some (start_run f run (p.cons c)))

-- `Close`, up to its `Wait`.
unfoldable pub close_all : Flate → List (List ℕ × ℕ) → (ℕ → Connection) → ℕ → Connection
unfolding update
close_all f [] cons = cons
close_all f ((n, c) ∷ es) cons = close_all f es (update c (close f (cons c)) cons)

unfoldable pub close_pool : Flate → Pool → Pool
unfolding close_all
close_pool f p = record p { closed = true; cons = close_all f p.entry_map p.cons }

-- What `Wait` asks for, again and again.
unfoldable pub wait_over : Pool → Bool
wait_over p = leb (length p.entry_map) 0 && p.closed
