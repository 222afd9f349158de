-- ===== src/Tests/Interleaving.antt =====
-- Frames of two streams, one among the other.
use webson.Common.{ℕ, Bool, true, false, List, [], ◌∷◌}
use webson.Message.{Message, no_send}
use webson.Connection.{Connection}
use webson.Tests.{ready_config, streams_nego, a_connection, a_message}

abbrev waiting : Connection
waiting = record (a_connection false streams_nego) {
  config = record ready_config { trigger_on_start = false };
}

abbrev part : ℕ → Bool → List ℕ → Message
part i complete bytes = record m { entity = bytes; receive = record (m.receive) { stream_id = i } }
  where
    m : Message
    m = a_message no_send streams_nego 1 complete []

-- Two messages, and a cancel of a third stream between them.
abbrev frames : List (Message × Bool)
frames =
    (part 1 false (1 ∷ []), false)
    ∷ (part 2 false (7 ∷ []), false)
    ∷ (part 1 false (2 ∷ []), false)
    ∷ (part 3 true (9 ∷ []), true)
    ∷ (part 2 true (8 ∷ []), false)
    ∷ (part 1 true (3 ∷ []), false)
    ∷ []
