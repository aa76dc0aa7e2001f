-- ===== src/Pooling/Tests.antt =====
-- A pool of one connection that waits, and the theorems at it.
use loadbalancer.Base.{
  ℕ, ◌≡◌, refl, true, false, none, some, [], ◌∷◌, arith, Text, text_keys, find, bytes, decimal,
}
use loadbalancer.Net.Connection.{Connection, new_connection}
use loadbalancer.Pooling.{
  PoolConfig, ConnectionPool, Peeked, nothing_yet, peer_gone, new_pool, borrow, lent, refused,
  undefined, clear, release, scan_idle, scan_entry, take_idle, settle, lend_new,
  validate_connection, evict_expired, evict_loop,
}
use loadbalancer.Pooling.Eviction.{IsTrimmed, evict_expired-IsTrimmed}
use loadbalancer.Pooling.Bounds.{IsBounded, fresh, after, lends, releases, Reach-IsBounded}
use loadbalancer.Pooling.Manager.{
  ConnectionPoolManager, make_key, borrow_from, release_to, manager_lent,
}
use loadbalancer.Pooling.Manager.Endpoints.{emptied, borrow_from-release_to}

abbrev config : PoolConfig
config = record {
  min_connections = 0;
  max_connections = 2;
  max_idle_time_ms = 60000;
  validate_on_borrow = true;
}

abbrev quiet : ℕ → Peeked
quiet fd = nothing_yet

abbrev gone : ℕ → Peeked
gone fd = peer_gone

abbrev made : Connection
made = new_connection 9

abbrev one_out : ConnectionPool
one_out = emptied config 1

abbrev one_idle : ConnectionPool
one_idle = record {
  config = config;
  connections = record { connection = some made; last_used = 5; in_use = false } ∷ [];
  active_count = 0;
}

made_run : borrow quiet (some made) (new_pool config) ≡ lent made one_out
unfolding borrow settle lend_new scan_idle new_pool
made_run = refl

released_run : release quiet 5 (some made) one_out ≡ one_idle
unfolding release validate_connection new_connection
released_run = refl

-- An idle connection that its backend has closed.
stale_run : borrow gone none one_idle ≡ undefined
unfolding borrow settle scan_idle scan_entry take_idle validate_connection new_connection
stale_run = refl

late_run : (evict_expired 60006 one_idle).connections ≡ []
unfolding evict_expired evict_loop
late_run = refl

evict_expired-IsTrimmed_example :
    IsTrimmed config 60006 one_idle.connections (evict_expired 60006 one_idle).connections
evict_expired-IsTrimmed_example = evict_expired-IsTrimmed 60006 one_idle ((refl, refl), _)

Reach-IsBounded_example : IsBounded config (release quiet 5 (some made) one_out) 0
Reach-IsBounded_example =
    Reach-IsBounded config (omega arith) (release quiet 5 (some made) one_out) 0 (
      after one_out _ 1 0
        (after (new_pool config) one_out 0 1 fresh (lends quiet (some made) made one_out made_run))
        (releases quiet 5 made (omega arith)))

-- `clear` forgets the connections that are out: here a third is lent where two may be.
abbrev two_out : ConnectionPool
two_out = emptied config 2

third_refused : borrow quiet (some made) two_out ≡ refused two_out
unfolding borrow settle lend_new scan_idle
third_refused = refl

third_lent : borrow quiet (some made) (clear two_out) ≡ lent made one_out
unfolding borrow settle lend_new scan_idle clear
third_lent = refl

abbrev server : Text
server = bytes "10.0.0.1"

abbrev manager : ConnectionPoolManager
manager = record { default_config = config; pools = (make_key server 80, one_out) ∷ [] }

found_run : find (make_key server 80) manager.pools ≡ some one_out
unfolding find make_key decimal
found_run = refl

valid_run : validate_connection quiet made ≡ true
unfolding validate_connection new_connection
valid_run = refl

borrow_from-release_to_example :
    (m' : ConnectionPoolManager) × (borrow_from quiet none server 80
        (release_to quiet 5 server 80 (some made) manager)
      ≡ manager_lent made m')
    × ((key : Text) → find key m'.pools ≡ find key manager.pools)
borrow_from-release_to_example =
    borrow_from-release_to quiet none 5 0 80 server made config manager found_run valid_run
      (omega arith)
