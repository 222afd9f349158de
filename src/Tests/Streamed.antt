-- ===== src/Tests/Streamed.antt =====
-- A message that is read from a source.
use webson.Common.{false, some, ◌+◌, ◌≡◌, refl, [], ◌∷◌, ◌++◌, none, All, length, flatten, arith}
use webson.Errors.{eof, io_error}
use webson.Message.Split.Laws.{Fits}
use webson.Connection.{Connection, lookup}
use webson.Connection.Streams.{send_options}
use webson.Connection.Write.{Source, dispatch_reader, dispatched}
use webson.Connection.Receive.Steps.{with_buffer}
use webson.Connection.Start.{serve}
use webson.Reader.{Reader}
use webson.Connection.Transfer.Sequence.{IsTransfer}
use webson.Connection.Transfer.Linked.{IsLinked}
use webson.Connection.Transfer.Failing.{failing_wire, dispatch_reader-IsPending}
use webson.Connection.Receive.Unfinished.{IsPending}
use webson.Connection.Write.{is_eof}
use webson.Connection.Transfer.Streamed.{streamed_wire, reads_of, dispatch_reader-IsTransfer}
use webson.Tests.{plain_flate, hello, a_reader}
use webson.Tests.Frames.{sender, waiting}

linked : IsLinked 1 [] sender waiting 5120
unfolding send_options lookup
linked = record {
  type_pos = omega arith;
  data_type = omega arith;
  no_stream = refl;
  no_compress = refl;
  chunks = omega arith;
  fits = omega arith;
  small = omega arith;
  allowed = λ h. absurd (h refl);
  roles = λ h. refl;
  same_mask = refl;
  waits = refl;
  idle = refl;
  writable = record { ready = refl; raw_open = refl; raw_works = refl; masks = λ n. refl };
}

abbrev source : Source
source = record { reads = hello ∷ hello ∷ []; last = []; ending = eof }

source-Fits : All (Fits 4096) (reads_of source)
source-Fits = (omega arith, (omega arith, (omega arith, tt)))

abbrev source_reader : Reader
source_reader = a_reader (flatten (streamed_wire 1 source sender) ++ (7 ∷ []))

dispatch_reader-IsTransfer_example :
    (con' rc' : Connection) × (dispatch_reader plain_flate 1 source sender
      ≡ dispatched none [] con')
    × (con'.wire ≡ streamed_wire 1 source sender)
    × (serve
          (length (streamed_wire 1 source sender) + 3)
          plain_flate
          (λ n. n)
          0
          waiting
          source_reader
        ≡ serve 3 plain_flate
            (λ n. n)
            (0 + length (streamed_wire 1 source sender))
            rc'
            (with_buffer (7 ∷ []) source_reader))
    × IsTransfer 0 (hello ++ hello) waiting rc'
dispatch_reader-IsTransfer_example =
    dispatch_reader-IsTransfer plain_flate 1 source sender waiting source_reader (7 ∷ []) 3 (λ n. n)
      0 linked refl source-Fits refl

abbrev broken : Source
broken = record { reads = hello ∷ []; last = hello; ending = io_error 1 }

broken-Fits : All (Fits 4096) (reads_of broken)
broken-Fits = (omega arith, (omega arith, tt))

broken_ending : is_eof broken.ending ≡ false
broken_ending = refl

abbrev broken_reader : Reader
broken_reader = a_reader (flatten (failing_wire 1 broken sender) ++ (7 ∷ []))

dispatch_reader-IsPending_example :
    (con' rc' : Connection) × (dispatch_reader plain_flate 1 broken sender
      ≡ dispatched (some broken.ending) [] con')
    × (con'.wire ≡ failing_wire 1 broken sender)
    × (serve
          (length (failing_wire 1 broken sender) + 3)
          plain_flate
          (λ n. n)
          0
          waiting
          broken_reader
        ≡ serve 3 plain_flate
            (λ n. n)
            (0 + length (failing_wire 1 broken sender))
            rc'
            (with_buffer (7 ∷ []) broken_reader))
    × IsPending 0 (hello ++ hello) waiting rc'
dispatch_reader-IsPending_example =
    dispatch_reader-IsPending plain_flate 1 broken sender waiting broken_reader (7 ∷ []) 3 (λ n. n)
      0 linked broken_ending broken-Fits refl
