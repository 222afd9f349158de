-- ===== src/Connection/Streams/Patch.antt =====
-- connection.go: what `patchMsg` does to the stream ids of a connection.
use webson.Common.{ℕ, ◌+◌, ◌≤◌, ◌≡◌, refl, ◌⊎◌, inl, inr, true, false, ◌∷◌, arith}
use webson.Errors.{Error, new_error}
use webson.Message.{Message, is_control}
use webson.Connection.{Connection}
use webson.Connection.Streams.{
  Search, found, spent, out_of_fuel, in_use, search_id, Patched, patched, refused, blocks,
  patch_msg, take_id, send_options, send_config, with_stream,
}
use webson.Connection.Streams.Alloc.{IdsOk, IsSearch, AllTaken, find_id-IsSearch}

search_id-IsSearch :
    (con : Connection)
    → IdsOk con
    → IsSearch con.config.max_streams con.in_use_streams con.last_stream (search_id con)
unfolding search_id
search_id-IsSearch con r =
    find_id-IsSearch (con.config.max_streams + 1) con.config.max_streams con.in_use_streams
      con.last_stream r.some_ids r.last_ok (omega arith)

-- The connection after the id `i` is given out.
abbrev pub given : ℕ → Connection → Connection
given i con = record con { last_stream = i; in_use_streams = i ∷ con.in_use_streams }

given-IdsOk :
    (i : ℕ) (con : Connection)
    → IdsOk con
    → in_use i con.in_use_streams ≡ false
    → 1 ≤ i
    → i ≤ con.config.max_streams
    → IdsOk (given i con)
unfolding in_use
given-IdsOk i con r free lo hi = record {
  some_ids = r.some_ids;
  last_ok = hi;
  in_range = λ j q. ground (arith, r.in_range j);
  distinct = (free, r.distinct);
}

-- What a message is given in any case.
abbrev pub prepared : Message → Connection → Message
prepared m con = record m { send = send_options con m; config = send_config con }

-- The two results on a stream connection whose lock is free.
abbrev pub TakesId : Message → Connection → Patched → Type 0
TakesId m con p =
    ((i : ℕ) × (p ≡ patched (with_stream (prepared m con) i) (given i con))
      × (in_use i con.in_use_streams ≡ false)
      × IdsOk (given i con))
    ⊎ ((e : Error) × (m' : Message) × (con' : Connection) × (p ≡ refused e m' con')
        × (in_use 1 con.in_use_streams ≡ true)
        × AllTaken con.last_stream con.config.max_streams con.in_use_streams
        × (con'.stream_id_locked ≡ true))

take_id-TakesId :
    (m : Message) (con : Connection) (s : Search)
    → search_id con ≡ s
    → IdsOk con
    → con.stream_id_locked ≡ false
    → TakesId m con (take_id (prepared m con) con)
unfolding take_id
take_id-TakesId m con (found i) q r u =
    let (free, lo, hi) = (search_id-IsSearch con r).finds i q in
    inl (i, ground arith, free, given-IdsOk i con r free lo hi)
take_id-TakesId m con (spent i) q r u =
    let (one, taken, all) = (search_id-IsSearch con r).gives_up i q in
    inr (
      new_error "stream ids spent",
      prepared m con,
      record con { last_stream = i; stream_id_locked = true },
      ground arith,
      taken,
      all,
      refl,
    )
take_id-TakesId m con out_of_fuel q r u = absurd ((search_id-IsSearch con r).ends q)

patch_msg-stream :
    (m : Message) (con : Connection)
    → con.nego.streamable ≡ true
    → is_control m ≡ false
    → patch_msg m con ≡ take_id (prepared m con) con
unfolding patch_msg
patch_msg-stream m con s c = ground arith

-- A data message on a stream connection whose ids are sound and whose lock is free either gets an
-- id that was free, and the ids stay sound, or is refused, and then the id 1 and every id behind
-- the last one are taken and the lock is left held.
pub patch_msg-TakesId :
    (m : Message) (con : Connection)
    → IdsOk con
    → con.nego.streamable ≡ true
    → is_control m ≡ false
    → con.stream_id_locked ≡ false
    → TakesId m con (patch_msg m con)
patch_msg-TakesId m con r s c u =
    rw (patch_msg-stream m con s c) (take_id-TakesId m con (search_id con) refl r u)

refused_lem :
    (m : Message) (con : Connection) (e : Error) (m' : Message) (con' : Connection)
    → patch_msg m con ≡ refused e m' con'
    → (con'.stream_id_locked ≡ true) × (con'.nego.streamable ≡ true)
unfolding patch_msg
refused_lem m con e m' con' q = ground arith

locked-blocks :
    (n : Message) (con : Connection)
    → con.stream_id_locked ≡ true
    → con.nego.streamable ≡ true
    → is_control n ≡ false
    → patch_msg n con ≡ blocks
unfolding patch_msg
locked-blocks n con u s c = ground arith

-- After patchMsg has refused a message, a data message that is sent next on the connection waits
-- for ever.
pub patch_msg-refused-blocks :
    (m : Message) (con : Connection) (e : Error) (m' : Message) (con' : Connection) (n : Message)
    → patch_msg m con ≡ refused e m' con'
    → is_control n ≡ false
    → patch_msg n con' ≡ blocks
patch_msg-refused-blocks m con e m' con' n q c =
    let (u, s) = refused_lem m con e m' con' q in locked-blocks n con' u s c
