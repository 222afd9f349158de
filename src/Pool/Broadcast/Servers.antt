-- ===== src/Pool/Broadcast/Servers.antt =====
-- pool.go: `ToServers`, and each connection behind it.
use webson.Common.{
  ℕ, ◌<◌, ◌≡◌, refl, ap, sym, ◌∙◌, true, false, Bool-cases, inl, inr, ◌==◌, ==_iff, ==_refl, List,
  [], ◌∷◌, none, arith,
}
use webson.Message.{MessageType}
use webson.Message.Assemble.{Flate}
use webson.Connection.{Connection}
use webson.Connection.Streams.{in_use, send_options}
use webson.Connection.Streams.Alloc.{Distinct}
use webson.Connection.Write.{dispatched, new_message}
use webson.Connection.Write.Frames.{IsWritable, after_frames}
use webson.Connection.Write.Wire.{outgoing_frames, dispatch_lem, left-of-server}
use webson.Pool.{Pool, update}
use webson.Pool.Broadcast.{sent, send_one, send_all, after_dispatch, then_send, to_servers}

-- A server connection that takes the message with no compression and no stream id.
pub record IsPlainServer (t : MessageType) (p : List ℕ) (con : Connection) : Type 0 where
  pub server : con.is_client ≡ false
  pub no_stream : (send_options con (new_message t p con)).streamlize ≡ false
  pub no_compress : (send_options con (new_message t p con)).do_compress ≡ false
  pub chunks : 0 < con.config.chunk_size
  pub writable : IsWritable con

-- The connection with the message on its wire.
abbrev pub served_with : MessageType → List ℕ → Connection → Connection
served_with t p con = after_frames (outgoing_frames t p con) con

send_one-server :
    (f : Flate) (t : MessageType) (c : ℕ) (p : List ℕ) (cons : ℕ → Connection)
    → IsPlainServer t p (cons c)
    → send_one f t c p cons ≡ sent p (update c (served_with t p (cons c)) cons)
unfolding send_one
send_one-server f t c p cons h = ap (after_dispatch c cons) (
    dispatch_lem f t p (cons c) h.no_stream h.no_compress h.chunks h.writable
    ∙ ap (λ q. dispatched none q (served_with t p (cons c))) (left-of-server t p (cons c) h.server))

-- Each connection of the list has the message, and the others are as they were.
abbrev pub AllServed : MessageType → List ℕ → List ℕ → (ℕ → Connection) → (ℕ → Connection) → Type 0
AllServed t p cs cons cons' =
    (i : ℕ)
    → ((in_use i cs ≡ true) → cons' i ≡ served_with t p (cons i))
      × ((in_use i cs ≡ false) → cons' i ≡ cons i)

update-at : (c i : ℕ) (con : Connection) (cons : ℕ → Connection) → c ≡ i → update c con cons i ≡ con
unfolding update
update-at c i con cons e = rw (e, ==_refl i)

update-off :
    (c i : ℕ) (con : Connection) (cons : ℕ → Connection)
    → (c == i) ≡ false
    → update c con cons i ≡ cons i
unfolding update
update-off c i con cons e = ground arith

apart : (c i : ℕ) (cs : List ℕ) → in_use c cs ≡ false → in_use i cs ≡ true → (c == i) ≡ false
apart c i cs free there = elim (Bool-cases (c == i)) [
  | inl q ↦
      let same : in_use c cs ≡ true = ap (λ j. in_use j cs) ((==_iff c i).0 q) ∙ there in absurd cc
  | inr q ↦ q
]

cons-AllServed :
    (t : MessageType) (p : List ℕ) (c : ℕ) (cs : List ℕ) (cons cons' : ℕ → Connection)
    → in_use c cs ≡ false
    → AllServed t p cs (update c (served_with t p (cons c)) cons) cons'
    → AllServed t p (c ∷ cs) cons cons'
unfolding in_use
cons-AllServed t p c cs cons cons' free all i = elim (Bool-cases (c == i)) [
  | inl q ↦
      let e = (==_iff c i).0 q in
      let absent : in_use i cs ≡ false = ap (λ j. in_use j cs) (sym e) ∙ free in
      let here = (all i).1 absent ∙ update-at c i (served_with t p (cons c)) cons e in
      (
        λ k. here ∙ ap (λ j. served_with t p (cons j)) e,
        λ k. absurd (let k' : true ≡ false = rw q at k in cc),
      )
  | inr q ↦
      let same = update-off c i (served_with t p (cons c)) cons q in
      (λ k. (all i).0 (rw q at k) ∙ ap (served_with t p) same, λ k. (all i).1 (rw q at k) ∙ same)
]

send_all_cons :
    (f : Flate) (t : MessageType) (c : ℕ) (cs p : List ℕ) (cons next : ℕ → Connection)
    → send_one f t c p cons ≡ sent p next
    → send_all f t (c ∷ cs) p cons ≡ send_all f t cs p next
unfolding send_all
send_all_cons f t c cs p cons next e = ap (then_send (send_all f t cs)) e

in_use-head : (c : ℕ) (cs : List ℕ) → in_use c (c ∷ cs) ≡ true
unfolding in_use
in_use-head c cs = rw (==_refl c)

in_use-tail : (c i : ℕ) (cs : List ℕ) → in_use i cs ≡ true → in_use i (c ∷ cs) ≡ true
unfolding in_use
in_use-tail c i cs h = ground arith

pub send_all-AllServed :
    (f : Flate) (t : MessageType) (cs p : List ℕ) (cons : ℕ → Connection)
    → Distinct cs
    → ((i : ℕ) → in_use i cs ≡ true → IsPlainServer t p (cons i))
    → (cons' : ℕ → Connection) × (send_all f t cs p cons ≡ sent p cons')
      × AllServed t p cs cons cons'
send_all-AllServed f t [] p cons d h =
    (cons, unfold send_all in refl, λ i. unfold in_use in (λ e. absurd cc, λ e. refl))
send_all-AllServed f t (c ∷ cs) p cons (free, d) h =
    let next = update c (served_with t p (cons c)) cons in
    let (cons', e, all) = send_all-AllServed f t cs p next d (λ i there.
      let far = update-off c i (served_with t p (cons c)) cons (apart c i cs free there) in
      rw far (h i (in_use-tail c i cs there))) in
    (
      cons',
      send_all_cons f t c cs p cons next (send_one-server f t c p cons (h c (in_use-head c cs)))
          ∙ e,
      cons-AllServed t p c cs cons cons' free all,
    )

-- ToServers of a message that takes neither a stream id nor compression, on connections that are
-- ready and whose network works: it does not block, leaves the caller's slice as it was, gives each
-- server connection exactly the frames of the message behind what it had written, and changes no
-- other connection.
pub to_servers-AllServed :
    (f : Flate) (t : MessageType) (p : List ℕ) (pool : Pool)
    → Distinct pool.servers
    → ((i : ℕ) → in_use i pool.servers ≡ true → IsPlainServer t p (pool.cons i))
    → (cons' : ℕ → Connection) × (to_servers f t p pool ≡ sent p cons')
      × AllServed t p pool.servers pool.cons cons'
unfolding to_servers
to_servers-AllServed f t p pool d h = send_all-AllServed f t pool.servers p pool.cons d h
