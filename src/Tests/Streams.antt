-- ===== src/Tests/Streams.antt =====
-- A message on a stream of its own.
use webson.Common.{
  ℕ, ◌+◌, ◌≡◌, refl, true, false, List, [], ◌∷◌, ◌++◌, none, length, flatten, arith,
}
use webson.Connection.{Connection, lookup}
use webson.Connection.Streams.{in_use}
use webson.Connection.Streams.Alloc.{IdsOk}
use webson.Connection.Write.{dispatch, dispatched}
use webson.Connection.Receive.Steps.{with_buffer}
use webson.Connection.Start.{serve}
use webson.Connection.Transfer.Sequence.{IsTransfer}
use webson.Connection.Transfer.Numbered.{IsStreamLinked}
use webson.Connection.Transfer.Streams.{dispatch-IsStreamTransfer}
use webson.Tests.{plain_flate, hello, a_reader, a_connection, streams_nego, ready_config}

abbrev sender : Connection
sender = a_connection true streams_nego

abbrev waiting : Connection
waiting = record (a_connection false streams_nego) {
  config = record ready_config { trigger_on_start = false };
}

linked : IsStreamLinked 1 sender waiting 5120
unfolding lookup
linked = record {
  type_pos = omega arith;
  data_type = omega arith;
  streams = refl;
  streams_there = refl;
  plain = refl;
  ids_small = omega arith;
  chunks = omega arith;
  fits = omega arith;
  small = omega arith;
  allowed = λ h. absurd (h refl);
  roles = λ h. refl;
  same_mask = refl;
  waits = refl;
  idle = λ j. refl;
  writable = record { ready = refl; raw_open = refl; raw_works = refl; masks = λ n. refl };
}

no_ids : IdsOk sender
unfolding in_use
no_ids = record {
  some_ids = omega arith;
  last_ok = omega arith;
  in_range = λ i q. absurd cc;
  distinct = tt;
}

first_free : in_use 1 sender.in_use_streams ≡ false
unfolding in_use
first_free = refl

dispatch-IsStreamTransfer_example :
    (i : ℕ) × (sent : List (List ℕ)) × (con' rc' : Connection) × (in_use i [] ≡ false)
    × (dispatch plain_flate 1 hello sender ≡ dispatched none hello con')
    × (con'.wire ≡ sent)
    × (con'.in_use_streams ≡ [])
    × (serve
          (length sent + 3)
          plain_flate
          (λ n. n)
          0
          waiting
          (with_buffer (flatten sent ++ (7 ∷ [])) (a_reader []))
        ≡ serve 3 plain_flate (λ n. n) (0 + length sent) rc' (with_buffer (7 ∷ []) (a_reader [])))
    × IsTransfer i hello waiting rc'
dispatch-IsStreamTransfer_example =
    dispatch-IsStreamTransfer plain_flate 1 hello sender waiting (a_reader []) (7 ∷ []) 3 (λ n. n) 0
      linked no_ids refl first_free
