-- ===== src/Pooling/Manager/Ready.antt =====
-- borrow of ConnectionPoolManager (src/core/connection_pool.cpp) while every connection that waits is open.
use loadbalancer.Base.{
  ℕ, ◌≡◌, Bool, true, false, not, ◌&&◌, Option, none, some, List, [], ◌∷◌, arith, All, OnSome, Text,
  text_keys, assign-All, find-OnSome, find, ap, is_some, Option-cases, inl, inr, if-keeps, ltb,
}
use loadbalancer.Net.Connection.{Connection, is_established}
use loadbalancer.Pooling.{
  PooledConnection, ConnectionPool, Peeked, is_live, validate_connection, Scan, found, exhausted,
  dangling, keep_before, take_idle, scan_entry, scan_idle, Borrowed, lent, refused, undefined,
  lend_new, settle, borrow, new_pool,
}
use loadbalancer.Pooling.Manager.{
  ConnectionPoolManager, ManagerBorrowed, manager_lent, manager_refused, manager_undefined,
  make_key, get_pool, get_pool_found, put_pool, put_back, borrow_from,
}

abbrev pub HasSocket : Connection → Type 0
HasSocket c = (is_some c.fd ≡ true) × (is_established c.state ≡ true)

-- No peer has gone.
abbrev pub Live : (ℕ → Peeked) → Type 0
Live peek = (fd : ℕ) → is_live (peek fd) ≡ true

abbrev pub AllOpen : List PooledConnection → Type 0
AllOpen l = All (λ pc. OnSome HasSocket pc.connection) l

abbrev pub Ready : ConnectionPoolManager → Type 0
Ready m = All (λ e. AllOpen e.1.connections) m.pools

-- The connection that is lent has its descriptor, and those that wait are still open.
abbrev pub Lends : ManagerBorrowed → Type 0
Lends (manager_lent c m) = HasSocket c × Ready m
Lends (manager_refused m) = Ready m
Lends manager_undefined = ⊥

abbrev ScanOpen : Scan → Type 0
ScanOpen (found c rest) = HasSocket c × AllOpen rest
ScanOpen exhausted = Unit
ScanOpen dangling = ⊥

abbrev LentOpen : Borrowed → Type 0
LentOpen (lent c p) = HasSocket c × AllOpen p.connections
LentOpen (refused p) = AllOpen p.connections
LentOpen undefined = ⊥

keep_before-ScanOpen :
    (pc : PooledConnection) (later : Scan)
    → OnSome HasSocket pc.connection
    → ScanOpen later
    → ScanOpen (keep_before pc later)
unfolding keep_before
keep_before-ScanOpen pc (found c rest) p h = (h.0, (p, h.1))
keep_before-ScanOpen pc exhausted p h = h
keep_before-ScanOpen pc dangling p h = h

lend_new-LentOpen :
    (made : Option Connection) (p : ConnectionPool)
    → OnSome HasSocket made
    → AllOpen p.connections
    → LentOpen (lend_new made p)
unfolding lend_new
lend_new-LentOpen none p g h = h
lend_new-LentOpen (some c) p g h = (g, h)

settle-LentOpen :
    (made : Option Connection) (p : ConnectionPool) (o : Scan)
    → OnSome HasSocket made
    → AllOpen p.connections
    → ScanOpen o
    → LentOpen (settle made p o)
unfolding settle
settle-LentOpen made p (found c rest) g h k = k
settle-LentOpen made p exhausted g h k =
    if-keeps LentOpen (ltb p.active_count p.config.max_connections)
      (λ e. lend_new-LentOpen made p g h) (λ e. h)
settle-LentOpen made p dangling g h k = k

module _ (peek : ℕ → Peeked) (live : Live peek) where
  validate_connection-HasSocket : (c : Connection) → HasSocket c → validate_connection peek c ≡ true
  unfolding validate_connection
  validate_connection-HasSocket c h = elim (Option-cases c.fd) [
    | inl e ↦ ground (arith, ap is_some e, h.0)
    | inr (fd, e) ↦ rw e (rw h.1 (live fd))
  ]

  scan_entry-ScanOpen :
      (v : Bool) (pc : PooledConnection) (b : Bool) (o : Option Connection)
      (rest : List PooledConnection) (later : Scan)
      → OnSome HasSocket pc.connection
      → OnSome HasSocket o
      → AllOpen rest
      → ScanOpen later
      → ScanOpen (scan_entry peek v pc b o rest later)
  unfolding scan_entry take_idle
  scan_entry-ScanOpen v pc true o rest later p q h k = keep_before-ScanOpen pc later p k
  scan_entry-ScanOpen v pc false none rest later p q h k = keep_before-ScanOpen pc later p k
  scan_entry-ScanOpen v pc false (some c) rest later p q h k =
      if-keeps ScanOpen (v && not (validate_connection peek c))
        (λ e. ground (arith, e, validate_connection-HasSocket c q)) (λ e. (q, h))

  scan_idle-ScanOpen :
      (v : Bool) (l : List PooledConnection) → AllOpen l → ScanOpen (scan_idle peek v l)
  unfolding scan_idle
  scan_idle-ScanOpen v [] h = tt
  scan_idle-ScanOpen v (pc ∷ l) (p, h) =
      scan_entry-ScanOpen v pc pc.in_use pc.connection l (scan_idle peek v l) p p h
        (scan_idle-ScanOpen v l h)

  borrow-LentOpen :
      (made : Option Connection) (p : ConnectionPool)
      → OnSome HasSocket made
      → AllOpen p.connections
      → LentOpen (borrow peek made p)
  unfolding borrow
  borrow-LentOpen made p g h =
      settle-LentOpen made p (scan_idle peek p.config.validate_on_borrow p.connections) g h
        (scan_idle-ScanOpen p.config.validate_on_borrow p.connections h)

  put_back-Lends :
      (key : Text) (o : Borrowed) (m : ConnectionPoolManager)
      → Ready m
      → LentOpen o
      → Lends (put_back key o m)
  unfolding put_back put_pool
  put_back-Lends key (lent c p) m h k =
      (k.0, assign-All (λ q. AllOpen q.connections) key p m.pools k.1 h)
  put_back-Lends key (refused p) m h k = assign-All (λ q. AllOpen q.connections) key p m.pools k h
  put_back-Lends key undefined m h k = k

  found-Ready :
      (key : Text) (o : Option ConnectionPool) (m : ConnectionPoolManager)
      → Ready m
      → OnSome (λ p. AllOpen p.connections) o
      → AllOpen (get_pool_found key o m).0.connections × Ready (get_pool_found key o m).1
  unfolding get_pool_found new_pool
  found-Ready key none m h k =
      (tt, assign-All (λ q. AllOpen q.connections) key (new_pool m.default_config) m.pools tt h)
  found-Ready key (some p) m h k = (k, h)

  pub borrow_from-Lends :
      (made : Option Connection) (host : Text) (port : ℕ) (m : ConnectionPoolManager)
      → OnSome HasSocket made
      → Ready m
      → Lends (borrow_from peek made host port m)
  unfolding borrow_from get_pool
  borrow_from-Lends made host port m g h =
      let key = make_key host port in
      let (k, h') =
        found-Ready key (find key m.pools) m h
          (find-OnSome (λ q. AllOpen q.connections) key m.pools h) in
      let (p, m') = get_pool_found key (find key m.pools) m in
      put_back-Lends key (borrow peek made p) m' h' (borrow-LentOpen made p g k)
