-- ===== src/Shutdown.antt =====
-- The graceful shutdown of src/core/load_balancer.cpp: shutdown_gracefully, check_graceful_shutdown
-- and force_close_all_connections.
pub mod Deadline
mod Tests
use loadbalancer.Base.{
  ℕ, ◌+◌, Bool, true, false, not, Option, none, some, List, [], ◌∷◌, map, keep_if, nat_eq, leb,
  if◌then◌else◌,
}
use loadbalancer.Backend.Node.{Nodes, BackendState, draining, is_draining, set_state, update}
use loadbalancer.Backend.Pool.{BackendPool}
use loadbalancer.Net.Connection.{is_closed}
use loadbalancer.Health.{HealthChecker}
use loadbalancer.World.{World, del_fd, note}
use loadbalancer.Manager.{PoolRelease, close_connection, count_active_client_connections}

-- A listener is its open descriptor; the reactor is there, and runs or not.
pub record Service : Type 0 where
  pub world : World
  pub backend_pool : BackendPool
  pub health_checker : Option HealthChecker
  pub listener : Option ℕ
  pub shutdown_requested : Bool
  pub is_in_drain : Bool
  pub shutdown_deadline : ℕ
  pub is_running : Bool

unfoldable pub close_each : PoolRelease → List ℕ → World → World
close_each pool [] w = w
close_each pool (fd ∷ fds) w = close_each pool fds (close_connection pool fd w)

abbrev pub open_fds : World → List ℕ
open_fds w = map (λ e. e.0) (keep_if (λ e. not (is_closed e.1.state)) w.connections)

unfoldable pub force_close_all_connections : PoolRelease → World → World
force_close_all_connections pool w = close_each pool (open_fds w) w

unfoldable pub stop : Option HealthChecker → Option HealthChecker
stop none = none
stop (some h) = some (record h { running = false })

-- What both methods do when the shutdown is over.
unfoldable pub finish_shutdown : PoolRelease → Service → Service
finish_shutdown pool s = record s {
  world = force_close_all_connections pool s.world;
  health_checker = stop s.health_checker;
  is_running = false;
  is_in_drain = false;
}

unfoldable pub drain_all : List ℕ → Nodes → Nodes
drain_all [] nodes = nodes
drain_all (r ∷ rs) nodes =
    drain_all rs
      (if is_draining (nodes r).state then nodes else update r (set_state draining) nodes)

unfoldable pub close_listener : Option ℕ → World → World
close_listener none w = w
close_listener (some fd) w = note (del_fd fd) w

unfoldable pub start_drain : ℕ → ℕ → Service → Service
start_drain now timeout s =
    let w = close_listener s.listener s.world in
    record s {
      world = record w { nodes = drain_all s.backend_pool.backends w.nodes };
      listener = none;
      shutdown_requested = true;
      is_in_drain = true;
      shutdown_deadline = now + timeout;
    }

abbrev pub is_idle : Service → Bool
is_idle s = nat_eq (count_active_client_connections s.world) 0

unfoldable pub finish_if_idle : PoolRelease → Service → Service
finish_if_idle pool s = if is_idle s then finish_shutdown pool s else s

unfoldable pub shutdown_gracefully : PoolRelease → ℕ → ℕ → Service → Service
shutdown_gracefully pool now timeout s =
    if s.shutdown_requested then s else finish_if_idle pool (start_drain now timeout s)

unfoldable pub check_graceful_shutdown : PoolRelease → ℕ → Service → Service
check_graceful_shutdown pool now s =
    if not s.is_in_drain
    then s
    else if is_idle s
    then finish_shutdown pool s
    else if leb s.shutdown_deadline now
    then finish_shutdown pool s
    else s
