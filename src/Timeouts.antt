-- ===== src/Timeouts.antt =====
-- src/core/backpressure_manager.cpp, src/core/retry_handler.cpp, and the sweeps of
-- src/core/load_balancer.cpp that close what has taken too long. Times are in milliseconds.
pub mod Retries
pub mod Sweeps
pub mod Tracking
mod Tests
use loadbalancer.Base.{
  ℕ, ◌+◌, Bool, true, false, not, ◌&&◌, Option, none, some, List, [], ◌∷◌, map, nat_eq, leb,
  if◌then◌else◌, is_some, keep_if, Map, find, assign, erase, ℕ_keys,
}
use loadbalancer.Memory.{MemoryBudget}
use loadbalancer.Net.Connection.{Connection, ConnectionState, is_established, is_closed, close}
use loadbalancer.World.{World}
use loadbalancer.World.Gauges.{
  Metrics, increment_request_timeouts, increment_backpressure_timeouts,
  increment_backend_routes_failed,
}
use loadbalancer.Manager.{PoolRelease, close_connection}

abbrev pub Times : Type 0
Times = Map ℕ ℕ

-- `elapsed >= limit`, where elapsed is `now - start`.
abbrev pub has_elapsed : ℕ → ℕ → ℕ → Bool
has_elapsed now limit start = leb (start + limit) now

-- Whether `check_timeout` calls its callback.
unfoldable pub check_found : ℕ → ℕ → Option ℕ → Bool
check_found now timeout_ms none = false
check_found now timeout_ms (some start) = has_elapsed now timeout_ms start

unfoldable pub check_timeout : ℕ → ℕ → ℕ → Times → Bool
check_timeout now timeout_ms fd times = check_found now timeout_ms (find fd times)

pub start_tracking : ℕ → ℕ → Times → Times × Bool
start_tracking now fd times =
    if is_some (find fd times) then (times, false) else (assign fd now times, true)

pub clear_tracking : ℕ → Times → Times × Bool
clear_tracking fd times = (erase fd times, is_some (find fd times))

abbrev pub max_retry_attempts : ℕ
max_retry_attempts = 3

-- A retry gives up and closes the client, or connects it again with the next count.
pub data Retried : Type 0 where
  gave_up : Connection → MemoryBudget → Metrics → Retried
  connects : Connection → ℕ → Retried

closed_client : Connection × MemoryBudget → Metrics → Retried
closed_client (c, b) m = gave_up c b (increment_backend_routes_failed m)

pub retry : Connection → ℕ → MemoryBudget → Metrics → Retried
retry c retry_count b m =
    if leb max_retry_attempts retry_count
    then closed_client (close c b) m
    else connects c (retry_count + 1)

has_expired : ℕ → ℕ → Option ℕ → Bool
has_expired now limit none = false
has_expired now limit (some start) = has_elapsed now limit start

-- The clients that `check_request_timeouts` finds.
is_late : ℕ → ℕ → World → ℕ × Connection → Bool
is_late now limit w (fd, c) =
    not (is_some (find fd w.backend_connections))
    && is_established c.state
    && has_expired now limit (find fd w.connection_times)

late_clients : ℕ → ℕ → World → List ℕ
late_clients now limit w = map (λ e. e.0) (keep_if (is_late now limit w) w.connections)

close_late : PoolRelease → List ℕ → World → World
close_late pool [] w = w
close_late pool (fd ∷ fds) w =
    close_late pool fds
      (close_connection pool fd (record w { metrics = increment_request_timeouts w.metrics }))

pub check_request_timeouts : PoolRelease → ℕ → ℕ → World → World
check_request_timeouts pool now limit w =
    if nat_eq limit 0 then w else close_late pool (late_clients now limit w) w

is_open : Option Connection → Bool
is_open none = false
is_open (some c) = not (is_closed c.state)

is_stalled : ℕ → ℕ → World → ℕ × ℕ → Bool
is_stalled now limit w (fd, start) = has_elapsed now limit start && is_open (find fd w.connections)

pub stalled : ℕ → ℕ → World → List ℕ
stalled now limit w = map (λ e. e.0) (keep_if (is_stalled now limit w) w.backpressure_times)

erase_stalled : ℕ → World → World
erase_stalled fd w = record w { backpressure_times = erase fd w.backpressure_times }

close_stalled : PoolRelease → List ℕ → World → World
close_stalled pool [] w = w
close_stalled pool (fd ∷ fds) w = close_stalled pool fds (
    erase_stalled fd
      (close_connection pool fd (record w { metrics = increment_backpressure_timeouts w.metrics })))

pub check_backpressure_timeouts : PoolRelease → ℕ → ℕ → World → World
check_backpressure_timeouts pool now limit w =
    if nat_eq limit 0 then w else close_stalled pool (stalled now limit w) w
