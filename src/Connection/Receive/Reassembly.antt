-- ===== src/Connection/Receive/Reassembly.antt =====
-- The frames of one message, as `Start` puts them together and hands the message over.
use webson.Common.{
  ℕ, ◌≡◌, refl, ap, sym, ◌∙◌, Bool, true, false, List, [], ◌∷◌, ◌++◌, none, some, All, arith,
}
use webson.Message.{Message, is_control}
use webson.Message.Collect.{merge}
use webson.Message.Collect.Delivery.{merge_all, merge_all-entity, entities, last_flag}
use webson.Connection.{Connection, lookup, insert, delete}
use webson.Connection.Maps.{lookup-insert, lookup-delete, delete-insert}
use webson.Connection.Events.{trigger_message}
use webson.Connection.Receive.{deliver, deliver_data, cancel_stream}

-- A data frame of the stream `i`; without streams all frames have the stream id 0.
pub record IsPart (i : ℕ) (complete : Bool) (m : Message) : Type 0 where
  pub data_frame : is_control m ≡ false
  pub of_stream : m.receive.stream_id ≡ i
  pub flag : m.is_complete ≡ complete

unfoldable pub deliver_all : List Message → Connection → Connection
deliver_all [] con = con
deliver_all (m ∷ ms) con = deliver_all ms (deliver m false con).0

deliver-data :
    (m : Message) (con : Connection)
    → is_control m ≡ false
    → (deliver m false con).0 ≡ deliver_data m con
unfolding deliver cancel_stream
deliver-data m con h = rw h

deliver_data-first :
    (m : Message) (con : Connection)
    → con.config.trigger_on_start ≡ false
    → m.is_complete ≡ false
    → lookup m.receive.stream_id con.pending_streams ≡ none
    → deliver_data m con
      ≡ record con { pending_streams = insert m.receive.stream_id m con.pending_streams }
unfolding deliver_data
deliver_data-first m con s c e = ground arith

deliver_data-more :
    (m p : Message) (con : Connection)
    → m.is_complete ≡ false
    → lookup m.receive.stream_id con.pending_streams ≡ some p
    → deliver_data m con
      ≡ record con { pending_streams = insert m.receive.stream_id (merge p m) con.pending_streams }
unfolding deliver_data
deliver_data-more m p con c e = ground arith

deliver_data-last :
    (m p : Message) (con : Connection)
    → con.config.trigger_on_start ≡ false
    → m.is_complete ≡ true
    → lookup m.receive.stream_id con.pending_streams ≡ some p
    → deliver_data m con ≡ record (trigger_message (merge p m) con) {
      pending_streams = delete m.receive.stream_id con.pending_streams;
    }
unfolding deliver_data
deliver_data-last m p con s c e = ground arith

-- The connection once the message is handed over.
abbrev pub handed_over : ℕ → Message → Connection → Connection
handed_over i m con = record (trigger_message m con) {
  pending_streams = delete i con.pending_streams;
}

handed_over-insert :
    (i : ℕ) (m p : Message) (con : Connection)
    → handed_over i m (record con { pending_streams = insert i p con.pending_streams })
      ≡ handed_over i m con
unfolding trigger_message
handed_over-insert i m p con =
    ap (λ t. record (trigger_message m con) { pending_streams = t })
      (delete-insert i p con.pending_streams)

pub deliver-first :
    (i : ℕ) (m : Message) (con : Connection)
    → con.config.trigger_on_start ≡ false
    → lookup i con.pending_streams ≡ none
    → IsPart i false m
    → (deliver m false con).0 ≡ record con { pending_streams = insert i m con.pending_streams }
deliver-first i m con s e q =
    deliver-data m con q.data_frame
    ∙ deliver_data-first m con s q.flag (ap (λ j. lookup j con.pending_streams) q.of_stream ∙ e)
    ∙ ap (λ j. record con { pending_streams = insert j m con.pending_streams }) q.of_stream

pub deliver-more :
    (i : ℕ) (m p : Message) (con : Connection)
    → lookup i con.pending_streams ≡ some p
    → IsPart i false m
    → (deliver m false con).0
      ≡ record con { pending_streams = insert i (merge p m) con.pending_streams }
deliver-more i m p con e q =
    deliver-data m con q.data_frame
    ∙ deliver_data-more m p con q.flag (ap (λ j. lookup j con.pending_streams) q.of_stream ∙ e)
    ∙ ap (λ j. record con { pending_streams = insert j (merge p m) con.pending_streams })
        q.of_stream

deliver-last :
    (i : ℕ) (m p : Message) (con : Connection)
    → con.config.trigger_on_start ≡ false
    → lookup i con.pending_streams ≡ some p
    → IsPart i true m
    → (deliver m false con).0 ≡ handed_over i (merge p m) con
deliver-last i m p con s e q =
    deliver-data m con q.data_frame
    ∙ deliver_data-last m p con s q.flag (ap (λ j. lookup j con.pending_streams) q.of_stream ∙ e)
    ∙ ap (λ j. handed_over j (merge p m) con) q.of_stream

pub deliver_all_cons :
    (m : Message) (ms : List Message) (con con' : Connection)
    → (deliver m false con).0 ≡ con'
    → deliver_all (m ∷ ms) con ≡ deliver_all ms con'
unfolding deliver_all
deliver_all_cons m ms con con' e = ap (deliver_all ms) e

merge_all_cons :
    (i : ℕ) (p f : Message) (fs : List Message) (con : Connection)
    → handed_over i (merge_all (merge p f) fs) con ≡ handed_over i (merge_all p (f ∷ fs)) con
unfolding merge_all
merge_all_cons i p f fs con = refl

pub merge_all_nil : (p : Message) → merge_all p [] ≡ p
unfolding merge_all
merge_all_nil p = refl

pub deliver_all_nil : (con : Connection) → deliver_all [] con ≡ con
unfolding deliver_all
deliver_all_nil con = refl

-- The other frames of a message that is pending, the last one final.
rest-handed_over :
    (i : ℕ) (p : Message) (fs : List Message) (last : Message) (con : Connection)
    → con.config.trigger_on_start ≡ false
    → lookup i con.pending_streams ≡ some p
    → All (IsPart i false) fs
    → IsPart i true last
    → deliver_all (fs ++ (last ∷ [])) con ≡ handed_over i (merge_all p (fs ++ (last ∷ []))) con
rest-handed_over i p [] last con s e ps l =
    deliver_all_cons last [] con (handed_over i (merge p last) con)
      (deliver-last i last p con s e l)
    ∙ deliver_all_nil (handed_over i (merge p last) con)
    ∙ ap (λ m. handed_over i m con) (sym (merge_all_nil (merge p last)))
    ∙ merge_all_cons i p last [] con
rest-handed_over i p (f ∷ fs) last con s e (q, ps) l =
    let tail = fs ++ (last ∷ []) in
    let next = record con { pending_streams = insert i (merge p f) con.pending_streams } in
    deliver_all_cons f tail con next (deliver-more i f p con e q)
    ∙ rest-handed_over i (merge p f) fs last next s
        (lookup-insert i (merge p f) con.pending_streams) ps l
    ∙ handed_over-insert i (merge_all (merge p f) tail) (merge p f) con
    ∙ merge_all_cons i p f tail con

last_flag-snoc :
    (b : Bool) (fs : List Message) (last : Message)
    → last_flag b (fs ++ (last ∷ [])) ≡ last.is_complete
last_flag-snoc b [] last = refl
last_flag-snoc b (f ∷ fs) last = last_flag-snoc f.is_complete fs last

-- What the handler gets: all the bytes, in order, complete.
abbrev pub IsWhole : Message → List Message → Message → Type 0
IsWhole first more m =
    (m.entity ≡ first.entity ++ entities more)
    × (m.is_complete ≡ true)
    × (m.receive.compressed ≡ first.receive.compressed)
    × (m.receive.stream_id ≡ first.receive.stream_id)

merge-stream_id : (p m : Message) → (merge p m).receive.stream_id ≡ p.receive.stream_id
unfolding merge
merge-stream_id p m = ground arith

merge_all-stream_id :
    (p : Message) (ms : List Message) → (merge_all p ms).receive.stream_id ≡ p.receive.stream_id
unfolding merge_all
merge_all-stream_id p [] = refl
merge_all-stream_id p (m ∷ ms) = merge_all-stream_id (merge p m) ms ∙ merge-stream_id p m

-- The frames of a message of two frames or more, with no message pending on its stream and handlers
-- that wait for the whole of it: the handlers are called once, behind all the frames, with one
-- complete message that has the bytes of all the frames in order; nothing else changes, and nothing
-- is left pending on the stream.
pub deliver_all-handed_over :
    (i : ℕ) (first : Message) (fs : List Message) (last : Message) (con : Connection)
    → con.config.trigger_on_start ≡ false
    → lookup i con.pending_streams ≡ none
    → IsPart i false first
    → All (IsPart i false) fs
    → IsPart i true last
    → first.receive.pool_reading ≡ false
    → (m : Message) × (deliver_all (first ∷ (fs ++ (last ∷ []))) con ≡ handed_over i m con)
      × IsWhole first (fs ++ (last ∷ [])) m
      × (lookup i (handed_over i m con).pending_streams ≡ none)
deliver_all-handed_over i first fs last con s e q ps l reading =
    let tail = fs ++ (last ∷ []) in
    let next = record con { pending_streams = insert i first con.pending_streams } in
    let (entity, complete, compressed, pool, config) = merge_all-entity first tail reading in
    (
      merge_all first tail,
      deliver_all_cons first tail con next (deliver-first i first con s e q)
          ∙ rest-handed_over i first fs last next s (lookup-insert i first con.pending_streams) ps l
          ∙ handed_over-insert i (merge_all first tail) first con,
      (
        entity,
        complete ∙ last_flag-snoc first.is_complete fs last ∙ l.flag,
        compressed,
        merge_all-stream_id first tail,
      ),
      lookup-delete i con.pending_streams,
    )
