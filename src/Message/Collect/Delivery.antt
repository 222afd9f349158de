-- ===== src/Message/Collect/Delivery.antt =====
-- What the handler of a message gets, whenever it starts to read.
use webson.Common.{
  ℕ, ◌<◌, ◌≡◌, refl, ap, ap₂, sym, not, ◌&&◌, if◌then◌else◌, ◌∙◌, Bool, true, false, ◌||◌, List, [],
  ◌∷◌, ◌++◌, some, none, flatten, map, arith,
}
use mathlib.Core.List.{append-nil, append_assoc}
use webson.Errors.{msg_yet_complete}
use webson.Message.{Message}
use webson.Message.Assemble.{Flate}
use webson.Message.Collect.{merge, to_pool, to_buffer, read, read_iter}

-- The frames that arrive later, in order.
unfoldable pub merge_all : Message → List Message → Message
merge_all m [] = m
merge_all m (f ∷ fs) = merge_all (merge m f) fs

abbrev pub entities : List Message → List ℕ
entities fs = flatten (map (λ f. f.entity) fs)

abbrev pub last_flag : Bool → List Message → Bool
last_flag b [] = b
last_flag b (f ∷ fs) = last_flag f.is_complete fs

abbrev pub any_complete : List Message → Bool
any_complete [] = false
any_complete (f ∷ fs) = f.is_complete || any_complete fs

merge-buffer : (m f : Message) → m.receive.pool_reading ≡ false → merge m f ≡ to_buffer m f
unfolding merge
merge-buffer m f h = rw h (ground arith)

merge-pool :
    (m f : Message)
    → m.config.trigger_on_start ≡ true
    → m.receive.pool_reading ≡ true
    → merge m f ≡ to_pool m f
unfolding merge
merge-pool m f h k = ground arith

merge_all_buffer :
    (m f : Message) (fs : List Message)
    → m.receive.pool_reading ≡ false
    → merge_all m (f ∷ fs) ≡ merge_all (to_buffer m f) fs
unfolding merge_all
merge_all_buffer m f fs h = ap (λ t. merge_all t fs) (merge-buffer m f h)

merge_all_pool :
    (m f : Message) (fs : List Message)
    → m.config.trigger_on_start ≡ true
    → m.receive.pool_reading ≡ true
    → merge_all m (f ∷ fs) ≡ merge_all (to_pool m f) fs
unfolding merge_all
merge_all_pool m f fs h k = ap (λ t. merge_all t fs) (merge-pool m f h k)

-- While nobody reads the channel, the buffer collects every frame, and the message is complete when
-- the last one is.
pub merge_all-entity :
    (m : Message) (fs : List Message)
    → m.receive.pool_reading ≡ false
    → ((merge_all m fs).entity ≡ m.entity ++ entities fs)
      × ((merge_all m fs).is_complete ≡ last_flag m.is_complete fs)
      × ((merge_all m fs).receive.compressed ≡ m.receive.compressed)
      × ((merge_all m fs).receive.pool_reading ≡ false)
      × ((merge_all m fs).config ≡ m.config)
merge_all-entity m [] h = unfold merge_all in (sym (append-nil m.entity), refl, refl, h, refl)
merge_all-entity m (f ∷ fs) h =
    let (e, c, z, p, g) = merge_all-entity (to_buffer m f) fs h in
    rw (merge_all_buffer m f fs h) (e ∙ append_assoc m.entity f.entity (entities fs), c, z, p, g)

flatten-snoc : (xss : List (List ℕ)) (x : List ℕ) → flatten (xss ++ (x ∷ [])) ≡ flatten xss ++ x
flatten-snoc [] x = append-nil x
flatten-snoc (y ∷ xss) x = rw (flatten-snoc xss x) (sym (append_assoc y (flatten xss) x))

or_assoc : (a b c : Bool) → ((a || b) || c) ≡ (a || (b || c))
or_assoc true b c = refl
or_assoc false b c = refl

or-false : (a : Bool) → (a || false) ≡ a
or-false true = refl
or-false false = refl

-- Once somebody does, every frame goes to the channel, which is closed by the final one.
pub merge_all-pool :
    (m : Message) (fs : List Message)
    → m.config.trigger_on_start ≡ true
    → m.receive.pool_reading ≡ true
    → (flatten (merge_all m fs).receive.msg_pool ≡ flatten m.receive.msg_pool ++ entities fs)
      × ((merge_all m fs).receive.pool_closed ≡ (m.receive.pool_closed || any_complete fs))
merge_all-pool m [] h k =
    unfold merge_all in
    (sym (append-nil (flatten m.receive.msg_pool)), sym (or-false m.receive.pool_closed))
merge_all-pool m (f ∷ fs) h k =
    let (e, c) = merge_all-pool (to_pool m f) fs h k in
    rw (merge_all_pool m f fs h k) (
      e
          ∙ ap (λ t. t ++ entities fs) (flatten-snoc m.receive.msg_pool f.entity)
          ∙ append_assoc (flatten m.receive.msg_pool) f.entity (entities fs),
      c ∙ or_assoc m.receive.pool_closed f.is_complete (any_complete fs),
    )

abbrev started : Message → Message
started m = record m {
  entity = [];
  receive = record receive {
    pool_reading = true;
    msg_pool = m.entity ∷ [];
    pool_closed = m.is_complete;
  };
}
  where
    open m use {receive}

read_iter_lem :
    (f : Flate) (chan_size : ℕ) (m : Message)
    → 0 < chan_size
    → m.config.synchronized ≡ false
    → m.receive.compressed ≡ false
    → read_iter f chan_size m ≡ some (started m)
unfolding read_iter
read_iter_lem f chan_size m hc hs hz = ground arith

-- An uncompressed message of a connection that calls its handlers on the first frame and not
-- synchronously, read with ReadIter and a channel of size 1 at least after some of its frames came
-- in: the channel carries every byte of all the frames in order, whenever the call is made, and is
-- closed exactly when the last frame that had come in at the call, or one behind it, is final.
pub read_iter-delivers :
    (f : Flate) (chan_size : ℕ) (m : Message) (early late : List Message)
    → 0 < chan_size
    → m.config.trigger_on_start ≡ true
    → m.config.synchronized ≡ false
    → m.receive.compressed ≡ false
    → m.receive.pool_reading ≡ false
    → (r : Message) × (read_iter f chan_size (merge_all m early) ≡ some r)
      × (flatten (merge_all r late).receive.msg_pool
          ≡ m.entity ++ (entities early ++ entities late))
      × ((merge_all r late).receive.pool_closed
          ≡ (last_flag m.is_complete early || any_complete late))
read_iter-delivers f chan_size m early late hc ht hs hz hp =
    let (e, c, z, p, g) = merge_all-entity m early hp in
    let now = merge_all m early in
    let trigger : now.config.trigger_on_start ≡ true = rw g ht in
    let (t, d) = merge_all-pool (started now) late trigger refl in
    (
      started now,
      read_iter_lem f chan_size now hc (rw g hs) (rw z hz),
      t
          ∙ ap (λ x. x ++ entities late) (append-nil now.entity ∙ e)
          ∙ append_assoc m.entity (entities early) (entities late),
      rw (← c) d,
    )

read-branches :
    (f : Flate) (m : Message)
    → m.config.synchronized ≡ false
    → m.receive.compressed ≡ false
    → (read f m).0 ≡ (
        if m.config.trigger_on_start && not m.is_complete
        then ([], some msg_yet_complete)
        else (m.entity, none))
unfolding read
read-branches f m h z = ground arith

-- Read of an uncompressed message that is not read synchronously or by ReadIter gives every byte of
-- the frames that came in, but an error if the handler was started by the first frame and the last
-- frame so far is not final.
pub read-merge_all :
    (f : Flate) (m : Message) (fs : List Message)
    → m.config.synchronized ≡ false
    → m.receive.compressed ≡ false
    → m.receive.pool_reading ≡ false
    → (read f (merge_all m fs)).0 ≡ (
        if m.config.trigger_on_start && not (last_flag m.is_complete fs)
        then ([], some msg_yet_complete)
        else (m.entity ++ entities fs, none))
read-merge_all f m fs hs hz hp =
    let whole = merge_all m fs in
    let (e, c, z, p, g) = merge_all-entity m fs hp in
    let waits : (whole.config.trigger_on_start && not whole.is_complete)
        ≡ (m.config.trigger_on_start && not (last_flag m.is_complete fs)) =
      ap₂ (λ start last. start && not last) (ap (λ x. x.trigger_on_start) g) c in
    read-branches f whole (ap (λ x. x.synchronized) g ∙ hs) (z ∙ hz)
    ∙ ap₂ (λ b bytes. if b then ([], some msg_yet_complete) else (bytes, none)) waits e
