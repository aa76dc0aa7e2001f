-- ===== src/Pooling/Manager.antt =====
-- `ConnectionPoolManager` of src/core/connection_pool.cpp: a pool for each backend, by its address.
pub mod Endpoints
pub mod Ready
use loadbalancer.Base.{
  ℕ, Option, none, some, List, [], ◌∷◌, ◌++◌, map, Text, text_keys, Map, find, assign, decimal,
}
use loadbalancer.Net.Connection.{Connection}
use loadbalancer.Pooling.{
  PoolConfig, ConnectionPool, Peeked, Borrowed, lent, refused, undefined, new_pool, borrow, release,
  invalidate, clear, evict_expired,
}

pub record ConnectionPoolManager : Type 0 where
  pub default_config : PoolConfig
  pub pools : Map Text ConnectionPool

pub set_config : PoolConfig → ConnectionPoolManager → ConnectionPoolManager
set_config config m = record m { default_config = config }

-- 58 is ':'.
unfoldable pub make_key : Text → ℕ → Text
make_key host port = host ++ 58 ∷ decimal port

-- The pool of the address, a new one where there is none.
get_pool_found :
    Text → Option ConnectionPool → ConnectionPoolManager → ConnectionPool × ConnectionPoolManager
get_pool_found key (some p) m = (p, m)
get_pool_found key none m =
    let p = new_pool m.default_config in (p, record m { pools = assign key p m.pools })

pub get_pool : Text → ℕ → ConnectionPoolManager → ConnectionPool × ConnectionPoolManager
get_pool host port m = let key = make_key host port in get_pool_found key (find key m.pools) m

pub data ManagerBorrowed : Type 0 where
  manager_lent : Connection → ConnectionPoolManager → ManagerBorrowed
  manager_refused : ConnectionPoolManager → ManagerBorrowed
  manager_undefined : ManagerBorrowed

put_pool : Text → ConnectionPool → ConnectionPoolManager → ConnectionPoolManager
put_pool key p m = record m { pools = assign key p m.pools }

put_back : Text → Borrowed → ConnectionPoolManager → ManagerBorrowed
put_back key (lent c p) m = manager_lent c (put_pool key p m)
put_back key (refused p) m = manager_refused (put_pool key p m)
put_back key undefined m = manager_undefined

pub borrow_from :
    (ℕ → Peeked) → Option Connection → Text → ℕ → ConnectionPoolManager → ManagerBorrowed
borrow_from peek made host port m =
    let (p, m') = get_pool host port m in put_back (make_key host port) (borrow peek made p) m'

-- A method of the pool of an address, where there is one.
on_pool :
    Text
    → (ConnectionPool → ConnectionPool)
    → Option ConnectionPool
    → ConnectionPoolManager
    → ConnectionPoolManager
on_pool key f none m = m
on_pool key f (some p) m = put_pool key (f p) m

pub release_to :
    (ℕ → Peeked) → ℕ → Text → ℕ → Option Connection → ConnectionPoolManager → ConnectionPoolManager
release_to peek now host port c m =
    let key = make_key host port in on_pool key (release peek now c) (find key m.pools) m

pub invalidate_at : Text → ℕ → ConnectionPoolManager → ConnectionPoolManager
invalidate_at host port m =
    let key = make_key host port in on_pool key invalidate (find key m.pools) m

pub clear_all : ConnectionPoolManager → ConnectionPoolManager
clear_all m = record m { pools = [] }

pub evict_all : ℕ → ConnectionPoolManager → ConnectionPoolManager
evict_all now m = record m { pools = map (λ e. (e.0, evict_expired now e.1)) m.pools }
