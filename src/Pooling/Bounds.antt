-- ===== src/Pooling/Bounds.antt =====
-- Sequences of calls of ConnectionPool (src/core/connection_pool.cpp) and the number of connections.
use loadbalancer.Base.{
  ℕ, ◌+◌, ◌≤◌, ◌<◌, ◌≡◌, ◌-◌, u64_mod, sym, refl, ltb→lt, All-append, length-append, ap, subst,
  is_some, Bool, true, false, not, ◌&&◌, Option, none, some, List, [], ◌∷◌, arith, length, ltb,
  if-keeps,
}
use loadbalancer.Net.Connection.{Connection}
use loadbalancer.Pooling.{
  PoolConfig, PooledConnection, ConnectionPool, Peeked, Scan, found, exhausted, dangling, Borrowed,
  lent, refused, undefined, validate_connection, take_idle, scan_entry, scan_idle, lend_new, settle,
  borrow, release, invalidate, clear, evict_expired, new_pool,
}
use loadbalancer.Pooling.Eviction.{IsIdle, AllIdle, length-evict_loop, evict_loop-AllIdle}

-- One call of a method, with the number of connections that are out before it and after it. Only a
-- connection that is out comes back or is given up, and the pool is cleared while none is out.
pub data Step (p : ConnectionPool) (out : ℕ) : ConnectionPool → ℕ → Type 0 where
  lends :
      (peek : ℕ → Peeked) (made : Option Connection) (c : Connection) (p' : ConnectionPool)
      → borrow peek made p ≡ lent c p'
      → Step p out p' (out + 1)
  refuses :
      (peek : ℕ → Peeked) (made : Option Connection) (p' : ConnectionPool)
      → borrow peek made p ≡ refused p'
      → Step p out p' out
  releases :
      (peek : ℕ → Peeked) (now : ℕ) (c : Connection)
      → 0 < out
      → Step p out (release peek now (some c) p) (out - 1)
  invalidates : 0 < out → Step p out (invalidate p) (out - 1)
  evicts : (now : ℕ) → Step p out (evict_expired now p) out
  clears : out ≡ 0 → Step p out (clear p) out

pub data Reach (config : PoolConfig) : ConnectionPool → ℕ → Type 0 where
  fresh : Reach config (new_pool config) 0
  after :
      (p q : ConnectionPool) (out out' : ℕ)
      → Reach config p out
      → Step p out q out'
      → Reach config q out'

pub record IsBounded (config : PoolConfig) (p : ConnectionPool) (out : ℕ) : Type 0 where
  pub same : p.config ≡ config
  pub ready : AllIdle p.connections
  pub exact : p.active_count ≡ out
  pub bound : out + length p.connections ≤ config.max_connections

-- Among idle entries the scan takes one away, and finds none only where there is none.
Took : ℕ → Scan → Type 0
Took n (found c rest) = (length rest + 1 ≡ n) × AllIdle rest
Took n exhausted = n ≡ 0
Took n dangling = 0 ≤ n

scan_entry-Took :
    (peek : ℕ → Peeked) (v : Bool) (pc : PooledConnection) (b : Bool) (o : Option Connection)
    (rest : List PooledConnection) (later : Scan)
    → b ≡ false
    → is_some o ≡ true
    → AllIdle rest
    → Took (length rest + 1) (scan_entry peek v pc b o rest later)
unfolding scan_entry take_idle Took
scan_entry-Took peek v pc true o rest later n h k = ground (arith, n)
scan_entry-Took peek v pc false none rest later n h k = ground (arith, h)
scan_entry-Took peek v pc false (some c) rest later n h k =
    if-keeps (Took (length rest + 1)) (v && not (validate_connection peek c)) (λ e. omega arith)
      (λ e. (refl, k))

scan_idle-Took :
    (peek : ℕ → Peeked) (v : Bool) (l : List PooledConnection)
    → AllIdle l
    → Took (length l) (scan_idle peek v l)
unfolding scan_idle Took
scan_idle-Took peek v [] h = refl
scan_idle-Took peek v (pc ∷ l) ((b, o), h) =
    let e : length l + 1 ≡ length (pc ∷ l) = omega arith in
    rw⁻¹ e (scan_entry-Took peek v pc pc.in_use pc.connection l (scan_idle peek v l) b o h)

module _ (config : PoolConfig) (fits : config.max_connections < u64_mod) where
  -- Whichever way a call of `borrow` ends, the pool that it leaves is bounded.
  BoundedAfter : ℕ → Borrowed → Type 0
  BoundedAfter out (lent c p) = IsBounded config p (out + 1)
  BoundedAfter out (refused p) = IsBounded config p out
  BoundedAfter out undefined = 0 ≤ 0

  lend_new-BoundedAfter :
      (out : ℕ) (made : Option Connection) (p : ConnectionPool)
      → IsBounded config p out
      → out + length p.connections < config.max_connections
      → BoundedAfter out (lend_new made p)
  unfolding BoundedAfter lend_new
  lend_new-BoundedAfter out none p h k = h
  lend_new-BoundedAfter out (some c) p h k = record {
    same = h.same;
    ready = h.ready;
    exact = omega (arith, h.exact, fits);
    bound = omega arith;
  }

  settle-BoundedAfter :
      (out : ℕ) (made : Option Connection) (p : ConnectionPool) (s : Scan)
      → IsBounded config p out
      → Took (length p.connections) s
      → BoundedAfter out (settle made p s)
  unfolding BoundedAfter settle Took
  settle-BoundedAfter out made p (found c rest) h t = record {
    same = h.same;
    ready = t.1;
    exact = omega (arith, h.exact, h.bound, t.0, fits);
    bound = omega (arith, h.bound, t.0);
  }
  settle-BoundedAfter out made p exhausted h t =
      if-keeps (BoundedAfter out) (ltb p.active_count p.config.max_connections)
        (λ e. lend_new-BoundedAfter out made p h (
          omega (
            arith,
            ltb→lt p.active_count p.config.max_connections e,
            h.exact,
            t,
            ap (λ (g : PoolConfig). g.max_connections) h.same,
          )))
        (λ e. h)
  settle-BoundedAfter out made p dangling h t = omega arith

  borrow-BoundedAfter :
      (out : ℕ) (peek : ℕ → Peeked) (made : Option Connection) (p : ConnectionPool)
      → IsBounded config p out
      → BoundedAfter out (borrow peek made p)
  unfolding borrow
  borrow-BoundedAfter out peek made p h =
      let s = scan_idle peek p.config.validate_on_borrow p.connections in
      settle-BoundedAfter out made p s h
        (scan_idle-Took peek p.config.validate_on_borrow p.connections h.ready)

  release-IsBounded :
      (out : ℕ) (peek : ℕ → Peeked) (now : ℕ) (c : Connection) (p : ConnectionPool)
      → 0 < out
      → IsBounded config p out
      → IsBounded config (release peek now (some c) p) (out - 1)
  unfolding release
  release-IsBounded out peek now c p k h =
      let pc : PooledConnection = record { connection = some c; last_used = now; in_use = false } in
      if-keeps (λ q. IsBounded config q (out - 1)) (validate_connection peek c)
        (λ e. record {
          same = h.same;
          ready = All-append IsIdle p.connections (pc ∷ []) h.ready ((refl, refl), _);
          exact = ground (arith, h.exact);
          bound = omega (arith, h.bound, length-append p.connections (pc ∷ []));
        })
        (λ e. record {
          same = h.same;
          ready = h.ready;
          exact = ground (arith, h.exact);
          bound = omega (arith, h.bound);
        })

  Step-IsBounded :
      (p q : ConnectionPool) (out out' : ℕ)
      → Step p out q out'
      → IsBounded config p out
      → IsBounded config q out'
  unfolding BoundedAfter invalidate evict_expired clear
  Step-IsBounded p q out out' (lends peek made c p' e) h =
      subst (BoundedAfter out) e (borrow-BoundedAfter out peek made p h)
  Step-IsBounded p q out out' (refuses peek made p' e) h =
      subst (BoundedAfter out) e (borrow-BoundedAfter out peek made p h)
  Step-IsBounded p q out out' (releases peek now c k) h = release-IsBounded out peek now c p k h
  Step-IsBounded p q out out' (invalidates k) h = record {
    same = h.same;
    ready = h.ready;
    exact = ground (arith, h.exact);
    bound = omega (arith, h.bound);
  }
  Step-IsBounded p q out out' (evicts now) h = record {
    same = h.same;
    ready = evict_loop-AllIdle p.config now _ p.connections h.ready;
    exact = h.exact;
    bound = omega (arith, h.bound, length-evict_loop p.config now _ p.connections);
  }
  Step-IsBounded p q out out' (clears k) h = record {
    same = h.same;
    ready = _;
    exact = sym k;
    bound = omega (arith, k);
  }

  -- In every pool that calls of its methods can lead to from a new one, the counter is the number of
  -- connections that are out, those and the idle ones are together at most `max_connections`, the
  -- configuration is the one given, and every entry is idle with its connection. Only a connection
  -- that is out is released or invalidated, the pool is cleared only while none is out, and
  -- `max_connections` is a size_t.
  pub Reach-IsBounded : (p : ConnectionPool) (out : ℕ) → Reach config p out → IsBounded config p out
  unfolding new_pool
  Reach-IsBounded p out fresh = record { same = refl; ready = _; exact = refl; bound = omega arith }
  Reach-IsBounded p out (after q p' n n' r s) = Step-IsBounded q p n out s (Reach-IsBounded q n r)
