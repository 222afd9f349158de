-- ===== src/Pool/Members/Updating.antt =====
-- pool.go: what a pool reads of its connections, and a write to one that is no member.
use webson.Common.{ℕ, ◌≡◌, ap, ◌∙◌, ◌≢◌, Bool, true, false, ==_refl, some, arith}
use webson.Config.{NodeConfig}
use webson.Connection.{Connection, name}
use webson.Connection.Streams.{in_use}
use webson.Pool.{Pool, entry, update, set_node}
use webson.Pool.Members.{IsPool, side, has_node}

-- What the pool knows of a connection.
abbrev pub Alike : Connection → Connection → Type 0
Alike a b = (name a ≡ name b) × (has_node a ≡ has_node b) × (a.is_client ≡ b.is_client)

-- The invariant reads only that of the members.
pub with_cons-IsPool :
    (p : Pool) (cons : ℕ → Connection)
    → IsPool p
    → ((b : Bool) (i : ℕ) → in_use i (side p b) ≡ true → Alike (cons i) (p.cons i))
    → IsPool (record p { cons = cons })
with_cons-IsPool p cons r alike = record {
  entry_ok = λ n c e.
      let (named, noded, there) = r.entry_ok n c e in
      let (x, y, z) = alike (p.cons c).is_client c there in (x ∙ named, y ∙ noded, rw z there);
  side_ok = λ b c e.
      let (there, role) = r.side_ok b c e in
      let (x, y, z) = alike b c e in (ap (λ t. entry t p.entry_map) x ∙ there, z ∙ role);
  distinct = r.distinct;
  within = r.within;
}

-- The connection is in neither slice.
abbrev pub IsOutside : ℕ → Pool → Type 0
IsOutside c p = (b : Bool) → in_use c (side p b) ≡ false

pub update-other :
    (c i : ℕ) (con : Connection) (cons : ℕ → Connection) → i ≢ c → update c con cons i ≡ cons i
unfolding update
update-other c i con cons h = ground arith

pub update-same : (c : ℕ) (con : Connection) (cons : ℕ → Connection) → update c con cons c ≡ con
unfolding update
update-same c con cons = rw (==_refl c)

pub outside-ne :
    (c i : ℕ) (b : Bool) (p : Pool) → IsOutside c p → in_use i (side p b) ≡ true → i ≢ c
outside-ne c i b p out e q = let f = out b in cc

pub eq-Alike : (a b : Connection) → a ≡ b → Alike a b
eq-Alike a b e = (ap name e, ap has_node e, ap (λ con. con.is_client) e)

pub set_node-IsPool :
    (c : ℕ) (n : NodeConfig) (p : Pool) → IsOutside c p → IsPool p → IsPool (set_node c n p)
unfolding set_node
set_node-IsPool c n p out r = with_cons-IsPool p _ r (λ b i e.
    let same =
      update-other c i (record (p.cons c) { node = some n }) p.cons (outside-ne c i b p out e) in
    eq-Alike _ _ same)
