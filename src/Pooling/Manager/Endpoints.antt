-- ===== src/Pooling/Manager/Endpoints.antt =====
-- borrow and release of ConnectionPoolManager (src/core/connection_pool.cpp), as their caller sees them.
use loadbalancer.Base.{
  ℕ, ◌+◌, ◌-◌, ◌<◌, ◌≡◌, refl, ◌∙◌, ap, true, Option, some, [], arith, Text, text_keys, text_eq_iff,
  find, assign, find-assign, find-assign_self, u64_mod,
}
use loadbalancer.Net.Connection.{Connection}
use loadbalancer.Pooling.{
  PoolConfig, ConnectionPool, Peeked, lent, borrow, release, validate_connection, scan_idle,
  scan_entry, take_idle, settle,
}
use loadbalancer.Pooling.Manager.{
  ConnectionPoolManager, manager_lent, make_key, get_pool, get_pool_found, put_pool, put_back,
  borrow_from, on_pool, release_to,
}

-- The pool without idle connections, with `n` that are out.
abbrev pub emptied : PoolConfig → ℕ → ConnectionPool
emptied config n = record { config = config; connections = []; active_count = n }

pool_round :
    (peek : ℕ → Peeked) (made : Option Connection) (now n : ℕ) (c : Connection)
    (config : PoolConfig)
    → validate_connection peek c ≡ true
    → n < u64_mod - 1
    → borrow peek made (release peek now (some c) (emptied config (n + 1)))
      ≡ lent c (emptied config (n + 1))
unfolding borrow release scan_idle scan_entry take_idle settle
pool_round peek made now n c config h k = ground (arith, h, k)

module _ (peek : ℕ → Peeked) (made : Option Connection) (port : ℕ) (host : Text) where
  borrow_found :
      (q p : ConnectionPool) (c : Connection) (m : ConnectionPoolManager)
      → find (make_key host port) m.pools ≡ some q
      → borrow peek made q ≡ lent c p
      → borrow_from peek made host port m ≡ manager_lent c (put_pool (make_key host port) p m)
  unfolding borrow_from get_pool get_pool_found put_back
  borrow_found q p c m h e = rw h (rw e refl)

  release_found :
      (now : ℕ) (p : ConnectionPool) (c : Connection) (m : ConnectionPoolManager)
      → find (make_key host port) m.pools ≡ some p
      → release_to peek now host port (some c) m
        ≡ put_pool (make_key host port) (release peek now (some c) p) m
  unfolding release_to on_pool
  release_found now p c m h = rw h refl

find-put_pool-put_pool :
    (key j : Text) (p q : ConnectionPool) (m : ConnectionPoolManager)
    → find key m.pools ≡ some p
    → find j (put_pool key p (put_pool key q m)).pools ≡ find j m.pools
unfolding put_pool
find-put_pool-put_pool key j p q m h = ground (
  arith,
  h,
  text_eq_iff key j,
  find-assign key j p (assign key q m.pools),
  find-assign key j q m.pools,
)

-- A connection that is released to the pool of its backend, one of at least one that is out, while no
-- other is idle there and it is still valid, is the connection that `borrow` then lends; the pool of
-- the backend is as before, and so is the pool of every other address.
pub borrow_from-release_to :
    (peek : ℕ → Peeked) (made : Option Connection) (now n port : ℕ) (host : Text) (c : Connection)
    (config : PoolConfig) (m : ConnectionPoolManager)
    → find (make_key host port) m.pools ≡ some (emptied config (n + 1))
    → validate_connection peek c ≡ true
    → n < u64_mod - 1
    → (m' : ConnectionPoolManager) × (borrow_from peek made host port
          (release_to peek now host port (some c) m)
        ≡ manager_lent c m')
      × ((key : Text) → find key m'.pools ≡ find key m.pools)
unfolding put_pool
borrow_from-release_to peek made now n port host c config m h v k =
    let key = make_key host port in
    let p : ConnectionPool = emptied config (n + 1) in
    let q : ConnectionPool = release peek now (some c) p in
    let m2 : ConnectionPoolManager = put_pool key q m in
    (
      put_pool key p m2,
      ap (borrow_from peek made host port) (release_found peek made port host now p c m h)
          ∙ borrow_found peek made port host q p c m2 (find-assign_self key q m.pools)
              (pool_round peek made now n c config v k),
      λ j. find-put_pool-put_pool key j p q m h,
    )
