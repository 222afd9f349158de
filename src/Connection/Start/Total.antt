-- ===== src/Connection/Start/Total.antt =====
-- connection.go: the rounds of the loop of `Start`, and the state in which it leaves a connection.
use webson.Common.{
  ℕ, zero, suc, ◌+◌, ◌<◌, ◌≡◌, refl, Bool, true, inl, inr, none, some, ◌≢◌, ◌⊎◌, arith,
}
use webson.Errors.{status_closed, status_ready}
use webson.Message.{Message}
use webson.Message.Assemble.{Flate}
use webson.Connection.{Connection}
use webson.Connection.Receive.{
  Stop, returns, malformed, panics, Try, done, stop, read_frame, deliver,
}
use webson.Connection.Receive.Total.{left, read_frame-left}
use webson.Connection.Start.{
  Served, served, panicked, out_of_fuel, stopped, serve, start, finish, finish_served,
}
use webson.Connection.Events.{update_status}
use webson.Connection.Events.Changes.{update_status-status}
use webson.Reader.{Reader}

stopped-ne-out_of_fuel : (f : Flate) (s : Stop) (con : Connection) → stopped f s con ≢ out_of_fuel
unfolding stopped
stopped-ne-out_of_fuel f (returns e) con q = cc
stopped-ne-out_of_fuel f (malformed c) con q = cc
stopped-ne-out_of_fuel f (panics none) con q = cc
stopped-ne-out_of_fuel f (panics (some i)) con q = cc

Try-cases :
    (t : Try (Message × Bool × Reader))
    → ((s : Stop) × (t ≡ stop s))
      ⊎ ((m : Message) × (c : Bool) × (r : Reader) × (t ≡ done (m, c, r)))
Try-cases (done (m, c, r)) = inr (m, c, r, refl)
Try-cases (stop s) = inl (s, refl)

serve-ne-out_of_fuel :
    (fuel : ℕ) (f : Flate) (clock : ℕ → ℕ) (n : ℕ) (con : Connection) (r : Reader)
    → left r < fuel
    → serve fuel f clock n con r ≢ out_of_fuel
unfolding serve
serve-ne-out_of_fuel zero f clock n con r h = absurd (omega arith)
serve-ne-out_of_fuel (suc fuel) f clock n con r h = elim (Try-cases (read_frame con (clock n) r)) [
  | inl (s, e) ↦ rw (e, serve) (stopped-ne-out_of_fuel f s con)
  | inr (m, cancel, r', e) ↦
      let rest =
        serve-ne-out_of_fuel fuel f clock (suc n) (deliver m cancel con).0 r'
          (omega (arith, read_frame-left con (clock n) r m cancel r' e)) in
      rw (e, serve) (λ q. ground (arith, rest))
]

-- The state in which a connection is left.
abbrev pub IsDown : Connection → Type 0
IsDown con = (con.status ≡ status_closed) × (con.closed ≡ true) × (con.raw_closed ≡ true)

abbrev pub Ends : Served → Type 0
Ends (served e con) = IsDown con
Ends (panicked con) = IsDown con
Ends out_of_fuel = ⊥

finish-IsDown : (con : Connection) → IsDown (finish con)
unfolding finish
finish-IsDown con = (update_status-status status_closed con, refl, refl)

finish_served-Ends : (s : Served) → s ≢ out_of_fuel → Ends (finish_served s)
finish_served-Ends (served e con) h = finish-IsDown con
finish_served-Ends (panicked con) h = finish-IsDown con
finish_served-Ends out_of_fuel h = h refl

-- Whatever bytes the network delivers, in whatever pieces, before it ends, Start ends within one
-- round for each byte and one more, and leaves the status closed, the connection closed and the
-- network connection closed.
pub start-Ends :
    (f : Flate) (clock : ℕ → ℕ) (con : Connection) (r : Reader) → Ends (start f clock con r)
unfolding start
start-Ends f clock con r =
    finish_served-Ends _
      (serve-ne-out_of_fuel (left r + 1) f clock 0 (update_status status_ready con) r (omega arith))
