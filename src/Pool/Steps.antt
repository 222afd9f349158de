-- ===== src/Pool/Steps.antt =====
-- pool.go: the life of a pool as steps, in any order in which the goroutines come to them. An
-- operation holds the lock from its start to its end, so it is one step.
pub mod Keeping
pub mod Invariant
pub mod Ending
pub mod Late
use webson.Common.{ℕ, zero, suc, ◌≡◌, Bool, true, List, Option, none, some}
use webson.Message.Assemble.{Flate}
use webson.Config.{NodeConfig}
use webson.Connection.{Connection}
use webson.Pool.{Pool, PoolConfig, entry, add, remove, new_pool, on_status, on_message}
use webson.Pool.Members.Updating.{Alike, IsOutside}
use webson.Pool.Run.{close_pool}

-- `runs` is what the connections do on their own, and what is sent on them: it leaves their names and
-- roles as they are. `removes` is the end of the goroutine of a member, or CastOut of one.
pub data Step : Pool → Pool → Type 0 where
  adds :
      {p : Pool} (key : List ℕ) (c : ℕ) (config : Option NodeConfig)
      → IsOutside c p
      → Step p (add key c config p).1
  removes :
      {p q : Pool} (n : List ℕ) (c : ℕ)
      → entry n p.entry_map ≡ some c
      → remove c p ≡ some q
      → Step p q
  runs :
      {p : Pool} (cons : ℕ → Connection)
      → ((i : ℕ) → Alike (cons i) (p.cons i))
      → Step p (record p { cons = cons })
  closes : {p : Pool} (f : Flate) → Step p (close_pool f p)
  binds_status : {p : Pool} (action : ℕ) → Step p (on_status action p)
  binds_message : {p : Pool} (action : ℕ) → Step p (on_message action p)

-- The pools that a new one can become.
pub data Reachable (start : Pool) : Pool → Type 0 where
  here : Reachable start start
  step : {p q : Pool} → Reachable start p → Step p q → Reachable start q

-- Members that leave one after the other, and how many.
pub data Leaves : Pool → Pool → ℕ → Type 0 where
  stays : {p : Pool} → Leaves p p zero
  leaves :
      {p q r : Pool} {k : ℕ} (n : List ℕ) (c : ℕ)
      → entry n p.entry_map ≡ some c
      → remove c p ≡ some q
      → Leaves q r k
      → Leaves p r (suc k)
