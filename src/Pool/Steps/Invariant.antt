-- ===== src/Pool/Steps/Invariant.antt =====
-- The invariant of a pool in every state that it can come to.
use webson.Common.{
  ℕ, ◌≡◌, refl, sym, ◌∙◌, inl, inr, true, ◌==◌, List, [], ◌∷◌, Option, some, Bool-cases, ==_iff,
  arith,
}
use webson.Message.Assemble.{Flate}
use webson.Connection.{Connection}
use webson.Connection.Close.{close}
use webson.Pool.Steps.Keeping.{close-Alike}
use webson.Connection.Streams.{in_use}
use webson.Pool.{Pool, PoolConfig, entry, remove, new_pool, on_status, on_message, update}
use webson.Pool.Members.{IsPool}
use webson.Pool.Members.Updating.{Alike, with_cons-IsPool}
use webson.Pool.Members.Adding.{add-IsPool}
use webson.Pool.Members.Removing.{remove-IsPool}
use webson.Pool.Run.{close_pool, close_all}
use webson.Pool.Steps.{
  Step, adds, removes, runs, closes, binds_status, binds_message, Reachable, here, step,
}

new_pool-IsPool :
    (key : List ℕ) (c : Option PoolConfig) (cons : ℕ → Connection) → IsPool (new_pool key c cons)
unfolding new_pool entry in_use
new_pool-IsPool key c cons = record {
  entry_ok = λ n d e. absurd cc;
  side_ok = λ b d e. elim (Bool-cases b) [
    | inl q ↦ absurd (ground arith)
    | inr q ↦ absurd (ground arith)
  ];
  distinct = λ b. elim (Bool-cases b) [ inl q ↦ rw q tt | inr q ↦ rw q tt ];
  within = inr (omega arith);
}

Alike-trans : (a b c : Connection) → Alike a b → Alike b c → Alike a c
Alike-trans a b c (x, y, z) (x', y', z') = (x ∙ x', y ∙ y', z ∙ z')

update-Alike :
    (c i : ℕ) (con : Connection) (cons : ℕ → Connection)
    → Alike con (cons c)
    → Alike (update c con cons i) (cons i)
unfolding update
update-Alike c i con cons h = elim (Bool-cases (i == c)) [
  | inl e ↦ rw (e, (==_iff i c).0 e) h
  | inr e ↦ rw e (refl, refl, refl)
]

close_all-Alike :
    (f : Flate) (es : List (List ℕ × ℕ)) (cons : ℕ → Connection) (i : ℕ)
    → Alike (close_all f es cons i) (cons i)
unfolding close_all
close_all-Alike f [] cons i = (refl, refl, refl)
close_all-Alike f ((n, c) ∷ es) cons i =
    Alike-trans _ (update c (close f (cons c)) cons i) (cons i)
      (close_all-Alike f es (update c (close f (cons c)) cons) i)
      (update-Alike c i (close f (cons c)) cons (close-Alike f (cons c)))

closed-IsPool : (p : Pool) → IsPool p → IsPool (record p { closed = true })
closed-IsPool p r = record {
  entry_ok = r.entry_ok;
  side_ok = r.side_ok;
  distinct = r.distinct;
  within = r.within;
}

close_pool-IsPool : (f : Flate) (p : Pool) → IsPool p → IsPool (close_pool f p)
unfolding close_pool
close_pool-IsPool f p r =
    with_cons-IsPool (record p { closed = true }) (close_all f p.entry_map p.cons)
      (closed-IsPool p r) (λ b i h. close_all-Alike f p.entry_map p.cons i)

handlers-IsPool :
    (p : Pool) (a b : Option ℕ)
    → IsPool p
    → IsPool (record p { status_handler = a; message_handler = b })
handlers-IsPool p a b r = record {
  entry_ok = r.entry_ok;
  side_ok = r.side_ok;
  distinct = r.distinct;
  within = r.within;
}

pub some-eq : (a b : Pool) → some a ≡ some b → a ≡ b
some-eq a b e = cc

pub remove-keeps :
    (n : List ℕ) (c : ℕ) (p q : Pool)
    → IsPool p
    → entry n p.entry_map ≡ some c
    → remove c p ≡ some q
    → IsPool q
remove-keeps n c p q r e h =
    let (q', h', gone) = remove-IsPool n c p r e in rw (some-eq q q' (sym h ∙ h')) gone.0

step-IsPool : (p q : Pool) → Step p q → IsPool p → IsPool q
unfolding on_status on_message
step-IsPool p _ (adds key c config out) r = (add-IsPool key c config p out r).0
step-IsPool p q (removes n c e h) r = remove-keeps n c p q r e h
step-IsPool p _ (runs cons alike) r = with_cons-IsPool p cons r (λ b i h. alike i)
step-IsPool p _ (closes f) r = close_pool-IsPool f p r
step-IsPool p _ (binds_status action) r = handlers-IsPool p (some action) p.message_handler r
step-IsPool p _ (binds_message action) r = handlers-IsPool p p.status_handler (some action) r

reach-IsPool : (start p : Pool) → Reachable start p → IsPool start → IsPool p
reach-IsPool start _ here r = r
reach-IsPool start p (step {p = q} before s) r = step-IsPool q p s (reach-IsPool start q before r)

-- From a new pool on, in any order of adds of connections that are not in it, removals of members,
-- closes, new handlers, and runs of connections that leave their nodes and roles: every pool that
-- is reached keeps the invariant, so that entries, names, roles and slices fit together and the
-- size is within its limit.
pub Reachable-IsPool :
    (key : List ℕ) (c : Option PoolConfig) (cons : ℕ → Connection) (p : Pool)
    → Reachable (new_pool key c cons) p
    → IsPool p
Reachable-IsPool key c cons p h =
    reach-IsPool (new_pool key c cons) p h (new_pool-IsPool key c cons)
