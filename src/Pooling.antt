-- ===== src/Pooling.antt =====
-- src/core/connection_pool.h and connection_pool.cpp: the idle connections to one backend. The mutex
-- makes each method one step. What `recv` peeks, what `create_connection` makes and the clock, in
-- milliseconds, are arguments.
pub mod Bounds
pub mod Eviction
pub mod Manager
mod Tests
use loadbalancer.Base.{
  ℕ, ◌+◌, ◌-◌, Bool, true, false, ◌&&◌, ◌||◌, not, Option, none, some, List, [], ◌∷◌, ◌++◌, length,
  keep_if, ltb, u64, u64_mod, if◌then◌else◌, is_some,
}
use loadbalancer.Net.Connection.{Connection, is_established}

pub record PoolConfig : Type 0 where
  pub min_connections : ℕ
  pub max_connections : ℕ
  pub max_idle_time_ms : ℕ
  pub validate_on_borrow : Bool

pub record PooledConnection : Type 0 where
  pub connection : Option Connection
  pub last_used : ℕ
  pub in_use : Bool

pub record ConnectionPool : Type 0 where
  pub config : PoolConfig
  pub connections : List PooledConnection
  pub active_count : ℕ

unfoldable pub new_pool : PoolConfig → ConnectionPool
new_pool config = record { config = config; connections = []; active_count = 0 }

-- `recv` with MSG_PEEK: the end of the stream, a byte, nothing yet, or another error.
pub data Peeked : Type 0 where
  peer_gone byte_waiting nothing_yet broken : Peeked

abbrev pub is_live : Peeked → Bool
is_live peer_gone = false
is_live byte_waiting = true
is_live nothing_yet = true
is_live broken = false

unfoldable pub validate_connection : (ℕ → Peeked) → Connection → Bool
validate_connection peek c = check c.fd
  where
    check : Option ℕ → Bool
    check none = false
    check (some fd) = is_established c.state && is_live (peek fd)

-- What the loop over the deque comes to: an idle connection and the others, none, or an invalid one.
-- Erasing that one leaves `it` invalid, and the loop goes on from it: then the behaviour is undefined.
pub data Scan : Type 0 where
  found : Connection → List PooledConnection → Scan
  exhausted dangling : Scan

unfoldable pub keep_before : PooledConnection → Scan → Scan
keep_before pc (found c rest) = found c (pc ∷ rest)
keep_before pc exhausted = exhausted
keep_before pc dangling = dangling

unfoldable pub take_idle : (ℕ → Peeked) → Bool → Connection → List PooledConnection → Scan
take_idle peek validate c rest =
    if validate && not (validate_connection peek c) then dangling else found c rest

-- An entry in use, or without a connection, is passed over.
unfoldable pub scan_entry :
    (ℕ → Peeked)
    → Bool
    → PooledConnection
    → Bool
    → Option Connection
    → List PooledConnection
    → Scan
    → Scan
scan_entry peek validate pc true o rest later = keep_before pc later
scan_entry peek validate pc false none rest later = keep_before pc later
scan_entry peek validate pc false (some c) rest later = take_idle peek validate c rest

unfoldable pub scan_idle : (ℕ → Peeked) → Bool → List PooledConnection → Scan
scan_idle peek validate [] = exhausted
scan_idle peek validate (pc ∷ rest) =
    scan_entry peek validate pc pc.in_use pc.connection rest (scan_idle peek validate rest)

pub data Borrowed : Type 0 where
  lent : Connection → ConnectionPool → Borrowed
  refused : ConnectionPool → Borrowed
  undefined : Borrowed

-- `made` is what `create_connection` gives: it is called only with room for another connection.
unfoldable pub lend_new : Option Connection → ConnectionPool → Borrowed
lend_new none p = refused p
lend_new (some c) p = lent c (record p { active_count = u64 (p.active_count + 1) })

unfoldable pub settle : Option Connection → ConnectionPool → Scan → Borrowed
settle made p (found c rest) =
    lent c (record p { connections = rest; active_count = u64 (p.active_count + 1) })
settle made p exhausted =
    if ltb p.active_count p.config.max_connections then lend_new made p else refused p
settle made p dangling = undefined

unfoldable pub borrow : (ℕ → Peeked) → Option Connection → ConnectionPool → Borrowed
borrow peek made p = settle made p (scan_idle peek p.config.validate_on_borrow p.connections)

-- One connection less is out; the counter stops at 0.
abbrev pub one_back : ConnectionPool → ConnectionPool
one_back p = record p {
  active_count = if ltb 0 p.active_count then p.active_count - 1 else p.active_count;
}

unfoldable pub release : (ℕ → Peeked) → ℕ → Option Connection → ConnectionPool → ConnectionPool
release peek now none p = p
release peek now (some c) p =
    let p' = one_back p in
    let pc : PooledConnection = record { connection = some c; last_used = now; in_use = false } in
    if validate_connection peek c then record p' { connections = p'.connections ++ pc ∷ [] } else p'

unfoldable pub invalidate : ConnectionPool → ConnectionPool
invalidate p = one_back p

unfoldable pub clear : ConnectionPool → ConnectionPool
clear p = record p { connections = []; active_count = 0 }

unfoldable pub idle_count : ConnectionPool → ℕ
idle_count p = length (keep_if (λ pc. not pc.in_use && is_some pc.connection) p.connections)

unfoldable pub total_count : ConnectionPool → ℕ
total_count p = length p.connections

-- The difference of the two times, cast to size_t.
abbrev pub idle_time : ℕ → PooledConnection → ℕ
idle_time now pc = u64 (now + u64_mod - pc.last_used)

abbrev pub is_expired : PoolConfig → ℕ → PooledConnection → Bool
is_expired config now pc = ltb config.max_idle_time_ms (idle_time now pc)

-- The loop of `evict_expired`, where `idle` counts down the idle ones that are left.
unfoldable pub evict_loop : PoolConfig → ℕ → ℕ → List PooledConnection → List PooledConnection
evict_loop config now idle [] = []
evict_loop config now idle (pc ∷ l) =
    let gone = not pc.in_use && ltb config.min_connections idle && is_expired config now pc in
    let rest = evict_loop config now (if gone then idle - 1 else idle) l in
    if gone then rest else pc ∷ rest

unfoldable pub evict_expired : ℕ → ConnectionPool → ConnectionPool
evict_expired now p = record p {
  connections =
      evict_loop p.config now (length (keep_if (λ pc. not pc.in_use) p.connections)) p.connections;
}
