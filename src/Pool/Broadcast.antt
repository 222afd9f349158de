-- ===== src/Pool/Broadcast.antt =====
-- pool.go: sending to many connections. The slice of the caller is handed from one to the next, as
-- each `Dispatch` leaves it.
pub mod Servers
use webson.Common.{
  ℕ, Bool, true, false, not, if◌then◌else◌, bytes_eq, List, [], ◌∷◌, Option, none, some,
}
use webson.Message.{MessageType}
use webson.Message.Assemble.{Flate}
use webson.Connection.{Connection, group, name}
use webson.Connection.Write.{Dispatched, dispatched, dispatch_blocks, dispatch}
use webson.Pool.{Pool, update, entry}

-- `none` waits for ever. The errors are dropped.
pub data Sent : Type 0 where
  sent : List ℕ → (ℕ → Connection) → Sent
  send_blocks : Sent

abbrev pub after_dispatch : ℕ → (ℕ → Connection) → Dispatched → Sent
after_dispatch c cons dispatch_blocks = send_blocks
after_dispatch c cons (dispatched e p con) = sent p (update c con cons)

abbrev pub then_send : (List ℕ → (ℕ → Connection) → Sent) → Sent → Sent
then_send rest send_blocks = send_blocks
then_send rest (sent p cons) = rest p cons

unfoldable pub send_one : Flate → MessageType → ℕ → List ℕ → (ℕ → Connection) → Sent
unfolding update
send_one f t c p cons = after_dispatch c cons (dispatch f t p (cons c))

unfoldable pub send_all : Flate → MessageType → List ℕ → List ℕ → (ℕ → Connection) → Sent
unfolding send_one
send_all f t [] p cons = sent p cons
send_all f t (c ∷ cs) p cons = then_send (send_all f t cs) (send_one f t c p cons)

unfoldable pub to_clients : Flate → MessageType → List ℕ → Pool → Sent
unfolding send_all
to_clients f t p pool = send_all f t pool.clients p pool.cons

unfoldable pub to_servers : Flate → MessageType → List ℕ → Pool → Sent
unfolding send_all
to_servers f t p pool = send_all f t pool.servers p pool.cons

-- The entries that a broadcast goes to, in the order of the map.
unfoldable pub picked : (List ℕ → ℕ → Bool) → List (List ℕ × ℕ) → List ℕ
picked test [] = []
picked test ((n, c) ∷ es) = if test n c then c ∷ picked test es else picked test es

unfoldable pub dispatch_all : Flate → MessageType → List ℕ → Pool → Sent
unfolding picked send_all
dispatch_all f t p pool = send_all f t (picked (λ n c. true) pool.entry_map) p pool.cons

-- A dispatch does not change the group of a connection, so the test can be made first.
unfoldable pub to_group : Flate → List ℕ → MessageType → List ℕ → Pool → Sent
unfolding picked send_all
to_group f g t p pool =
    send_all f t (picked (λ n c. bytes_eq (group (pool.cons c)) g) pool.entry_map) p pool.cons

unfoldable pub except : Flate → List ℕ → MessageType → List ℕ → Pool → Sent
unfolding picked send_all
except f name t p pool =
    send_all f t (picked (λ n c. not (bytes_eq n name)) pool.entry_map) p pool.cons

unfoldable pub to_pick : Flate → List ℕ → MessageType → List ℕ → Pool → Bool × Sent
unfolding entry send_one
to_pick f n t p pool = elim (entry n pool.entry_map) [
  | none ↦ (false, sent p pool.cons)
  | some c ↦ (true, send_one f t c p pool.cons)
]
