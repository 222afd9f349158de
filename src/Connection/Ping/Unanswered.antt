-- ===== src/Connection/Ping/Unanswered.antt =====
-- connection.go: `KeepPing` towards a peer that never answers.
use webson.Common.{
  ℕ, ◌≤◌, ◌≡◌, refl, ap, sym, ◌∙◌, true, false, List, [], ◌∷◌, All, none, some, length, arith,
}
use mathlib.Core.Path.{subst}
use webson.Message.{Message, ping_message, is_control}
use webson.Message.Assemble.{Flate, assemble, mask_message}
use webson.Message.Split.{split, chunk_message}
use webson.Message.Mask.{set_mask}
use webson.Connection.{Connection}
use webson.Connection.Streams.{send_options, send_config}
use webson.Connection.Write.{
  Written, written, write_blocks, Dispatched, dispatched, dispatch_blocks, write_raw,
  write_assembled, write_single_frame, write_frames, after_written, draw, new_message,
}
use webson.Connection.Write.Wire.{patch_msg-plain, dispatch-patched}
use webson.Connection.Ping.{
  Round, ping, pinged, ping_round, goes_on, check_pong, next_round, keep_ping, ping_rounds,
}

-- The times of the last ping and the last pong are those of another connection.
abbrev pub SameTimes : Connection → Connection → Type 0
SameTimes con con' = (con'.last_ping ≡ con.last_ping) × (con'.last_pong ≡ con.last_pong)

abbrev WrittenSame : Connection → Written → Type 0
WrittenSame con (written e m con') = SameTimes con con'
WrittenSame con write_blocks = ⊥

abbrev DispatchedSame : Connection → Dispatched → Type 0
DispatchedSame con (dispatched e p con') = SameTimes con con'
DispatchedSame con dispatch_blocks = ⊥

write_single_frame-SameTimes :
    (f : Flate) (m : Message) (con : Connection)
    → m.send.streamlize ≡ false
    → WrittenSame con (write_single_frame f (chunk_message m true []) con)
unfolding write_single_frame draw write_assembled write_raw assemble chunk_message mask_message
    set_mask
write_single_frame-SameTimes f m con h = ground arith

one_frame-SameTimes :
    (con : Connection) (w : Written)
    → WrittenSame con w
    → DispatchedSame con (after_written [] (λ con'. dispatched none [] con') w)
one_frame-SameTimes con (written none m con') h = h
one_frame-SameTimes con (written (some e) m con') h = h
one_frame-SameTimes con write_blocks h = h

-- A message without a payload is one frame.
empty_written :
    (f : Flate) (m : Message) (limit : ℕ) (con : Connection)
    → m.payload ≡ []
    → write_frames f (split m limit) con
      ≡ after_written []
          (λ con'. dispatched none [] con')
          (write_single_frame f (chunk_message m true []) con)
unfolding write_frames split chunk_message
empty_written f m limit con e = rw (e, length) refl

ping_stream :
    (con : Connection) → (send_options con (new_message ping_message [] con)).streamlize ≡ false
unfolding send_options is_control
ping_stream con = ground arith

ping-SameTimes :
    (f : Flate) (now : ℕ) (con : Connection)
    → DispatchedSame (record con { last_ping = now }) (ping f now con)
unfolding ping
ping-SameTimes f now con =
    let con0 = record con { last_ping = now } in
    let plain = new_message ping_message [] con0 in
    let m = record plain { send = send_options con0 plain; config = send_config con0 } in
    subst (DispatchedSame con0)
      (sym (
        dispatch-patched f ping_message [] con0 m (patch_msg-plain plain con0 (ping_stream con0))
        ∙ empty_written f m con0.config.chunk_size con0 refl))
      (one_frame-SameTimes con0 _ (write_single_frame-SameTimes f m con0 (ping_stream con0)))

pinged-times :
    (con con0 : Connection) (d : Dispatched) → DispatchedSame con0 d → SameTimes con0 (pinged con d)
pinged-times con con0 (dispatched e p con') h = h
pinged-times con con0 dispatch_blocks h = absurd h

-- While it sleeps nothing pings, and no pong comes.
abbrev pub IsSilent : Round → Type 0
IsSilent r = (con : Connection) → SameTimes con (r.meanwhile con)

check_pong-silent :
    (pong_timeout : ℕ) (con : Connection)
    → con.last_pong ≤ con.last_ping
    → check_pong pong_timeout false con ≡ goes_on false con
unfolding check_pong
check_pong-silent pong_timeout con h = ground arith

round-times :
    (f : Flate) (r : Round) (con : Connection)
    → IsSilent r
    → ((ping_round f r con).last_ping ≡ r.now) × ((ping_round f r con).last_pong ≡ con.last_pong)
round-times f r con h =
    let p = pinged con (ping f r.now con) in
    let (x, y) =
      pinged-times con (record con { last_ping = r.now }) _ (ping-SameTimes f r.now con) in
    let (z, t) = h p in (z ∙ x, t ∙ y)

-- Towards a peer that never answers, with a clock that does not run back behind the last pong and
-- nothing but KeepPing that pings, KeepPing reports no timeout and does not end, for any number of
-- rounds and any pongTimeout: it does nothing but ping.
pub keep_ping-unanswered :
    (f : Flate) (pong_timeout : ℕ) (rs : List Round) (con : Connection)
    → All IsSilent rs
    → All (λ r. con.last_pong ≤ r.now) rs
    → (keep_ping f pong_timeout rs false con ≡ (true, false, ping_rounds f rs con))
      × ((ping_rounds f rs con).last_pong ≡ con.last_pong)
unfolding keep_ping ping_rounds
keep_ping-unanswered f pong_timeout [] con h later = (refl, refl)
keep_ping-unanswered f pong_timeout (r ∷ rs) con (silent, h) (l, later) =
    let next = ping_round f r con in
    let (x, y) = round-times f r con silent in
    let (same, pong) =
      keep_ping-unanswered f pong_timeout rs next h
        (subst (λ t. All (λ q. t ≤ q.now) rs) (sym y) later) in
    (
      ap (next_round (keep_ping f pong_timeout rs) next)
            (check_pong-silent pong_timeout next (omega (arith, x, y, l)))
          ∙ same,
      pong ∙ y,
    )
