-- ===== src/Pool/Steps/Keeping.antt =====
-- connection.go: closing leaves the node of a connection and its role as they are.
use webson.Common.{ℕ, ◌≡◌, refl, ap, ◌∙◌, true, false, List, [], ◌∷◌, none, some, arith}
use webson.Message.{Message, MessageType, close_message}
use webson.Message.Split.{split}
use webson.Message.Assemble.{Flate}
use webson.Connection.{Connection, name}
use webson.Connection.Close.{close, close_with_code, close_update}
use webson.Connection.Events.{update_status}
use webson.Connection.Streams.{Patched, patched, refused, blocks, patch_msg}
use webson.Connection.Write.{
  Written, written, write_blocks, write_single_frame, write_raw, Dispatched, dispatched,
  dispatch_blocks, after_written, write_frames, send_patched, dispatch, new_message, prepend,
}
use webson.Pool.Members.Updating.{Alike}

-- The same node and the same role.
abbrev Keeps : Connection → Connection → Type 0
Keeps a b = (a.node ≡ b.node) × (a.is_client ≡ b.is_client)

Keeps-trans : (a b c : Connection) → Keeps a b → Keeps b c → Keeps a c
Keeps-trans a b c (n, r) (n', r') = (n ∙ n', r ∙ r')

abbrev KeepsWritten : Written → Connection → Type 0
KeepsWritten (written e m a) b = Keeps a b
KeepsWritten write_blocks b = Unit {0}

abbrev KeepsPatched : Patched → Connection → Type 0
KeepsPatched (patched m a) b = Keeps a b
KeepsPatched (refused e m a) b = Keeps a b
KeepsPatched blocks b = Unit {0}

abbrev KeepsDispatched : Dispatched → Connection → Type 0
KeepsDispatched (dispatched e p a) b = Keeps a b
KeepsDispatched dispatch_blocks b = Unit {0}

write_raw-Keeps : (m : Message) (con : Connection) → KeepsWritten (write_raw m con) con
unfolding write_raw
write_raw-Keeps m con = ground arith

write_single_frame-Keeps :
    (f : Flate) (m : Message) (con : Connection) → KeepsWritten (write_single_frame f m con) con
unfolding write_single_frame
write_single_frame-Keeps f m con = ground arith

patch_msg-Keeps : (m : Message) (con : Connection) → KeepsPatched (patch_msg m con) con
unfolding patch_msg
patch_msg-Keeps m con = ground arith

prepend-Keeps :
    (p : List ℕ) (d : Dispatched) (b : Connection)
    → KeepsDispatched d b
    → KeepsDispatched (prepend p d) b
prepend-Keeps p (dispatched e q a) b h = h
prepend-Keeps p dispatch_blocks b h = tt

dispatched_trans :
    (d : Dispatched) (a b : Connection) → Keeps a b → KeepsDispatched d a → KeepsDispatched d b
dispatched_trans (dispatched e q c) a b h k = Keeps-trans c a b k h
dispatched_trans dispatch_blocks a b h k = tt

after_written-Keeps :
    (ms : List Message) (rest : Connection → Dispatched) (w : Written) (b : Connection)
    → KeepsWritten w b
    → ((a : Connection) → KeepsDispatched (rest a) a)
    → KeepsDispatched (after_written ms rest w) b
after_written-Keeps ms rest write_blocks b h k = tt
after_written-Keeps ms rest (written (some e) m a) b h k = h
after_written-Keeps ms rest (written none m a) b h k =
    prepend-Keeps m.payload (rest a) b (dispatched_trans (rest a) a b h (k a))

write_frames-Keeps :
    (f : Flate) (ms : List Message) (con : Connection) → KeepsDispatched (write_frames f ms con) con
unfolding write_frames
write_frames-Keeps f [] con = (refl, refl)
write_frames-Keeps f (m ∷ ms) con =
    after_written-Keeps ms (write_frames f ms) (write_single_frame f m con) con
      (write_single_frame-Keeps f m con) (write_frames-Keeps f ms)

send_patched-Keeps :
    (f : Flate) (p : List ℕ) (q : Patched) (b : Connection)
    → KeepsPatched q b
    → KeepsDispatched (send_patched f p q) b
send_patched-Keeps f p blocks b h = tt
send_patched-Keeps f p (refused e m a) b h = h
send_patched-Keeps f p (patched m a) b h =
    dispatched_trans _ a b h (write_frames-Keeps f (split m a.config.chunk_size) a)

dispatch-Keeps :
    (f : Flate) (t : MessageType) (p : List ℕ) (con : Connection)
    → KeepsDispatched (dispatch f t p con) con
unfolding dispatch
dispatch-Keeps f t p con = send_patched-Keeps f p _ con (patch_msg-Keeps (new_message t p con) con)

close_update-Keeps : (con : Connection) → Keeps (close_update con) con
unfolding close_update update_status
close_update-Keeps con = ground arith

after_dispatch-Keeps :
    (d : Dispatched) (con : Connection)
    → KeepsDispatched d con
    → Keeps (elim d [ dispatched e p a ↦ close_update a | dispatch_blocks ↦ con ]) con
after_dispatch-Keeps (dispatched e p a) con h =
    Keeps-trans (close_update a) a con (close_update-Keeps a) h
after_dispatch-Keeps dispatch_blocks con h = (refl, refl)

close-Keeps : (f : Flate) (con : Connection) → Keeps (close f con) con
unfolding close close_with_code
close-Keeps f con = after_dispatch-Keeps _ con (dispatch-Keeps f close_message _ con)

Keeps-Alike : (a b : Connection) → Keeps a b → Alike a b
unfolding name
Keeps-Alike a b (n, r) = (
  ap (λ o. elim o [ none ↦ [] | some x ↦ x.name ]) n,
  ap (λ o. elim o [ none ↦ false | some x ↦ true ]) n,
  r,
)

-- `Close` leaves what the pool knows of a connection.
pub close-Alike : (f : Flate) (con : Connection) → Alike (close f con) con
close-Alike f con = Keeps-Alike (close f con) con (close-Keeps f con)
