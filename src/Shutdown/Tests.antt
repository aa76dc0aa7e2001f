-- ===== src/Shutdown/Tests.antt =====
-- A shutdown that waits for one client.
use loadbalancer.Base.{◌≡◌, refl, true, false, none, some, arith, [], ◌∷◌, find, ℕ_keys}
use loadbalancer.Backend.Node.{new_node}
use loadbalancer.Backend.Pool.{round_robin}
use loadbalancer.Health.{new_checker}
use loadbalancer.Net.Connection.{new_connection}
use loadbalancer.Manager.{count_active_client_connections}
use loadbalancer.World.{World}
use loadbalancer.World.Gauges.{new_metrics}
use loadbalancer.Shutdown.{
  Service, drain_all, close_listener, start_drain, finish_if_idle, shutdown_gracefully,
  check_graceful_shutdown,
}
use loadbalancer.Shutdown.Deadline.{IsOver, check_graceful_shutdown-IsOver}

abbrev tables : World
tables = record {
  connections = (7, new_connection 7) ∷ [];
  backend_connections = [];
  connection_times = (7, 90) ∷ [];
  backpressure_times = [];
  client_retry_counts = [];
  backend_to_client = [];
  requests = [];
  nodes = λ r. new_node [] 80 1;
  alive = λ r. true;
  budget = record { used_bytes = 0; limit_bytes = 0 };
  metrics = new_metrics;
  pooled = [];
  outside = [];
}

abbrev service : Service
service = record {
  world = tables;
  backend_pool = record {
    backends = 0 ∷ [];
    algorithm = round_robin;
    round_robin_index = 0;
    weighted_counter = 0;
  };
  health_checker = some new_checker;
  listener = some 3;
  shutdown_requested = false;
  is_in_drain = false;
  shutdown_deadline = 0;
  is_running = true;
}

-- Before the deadline the client keeps the reactor running.
waits :
    (check_graceful_shutdown none 120 (shutdown_gracefully none 100 30 service)).is_running ≡ true
unfolding check_graceful_shutdown shutdown_gracefully finish_if_idle start_drain close_listener
    drain_all new_connection find count_active_client_connections
waits = refl

check_graceful_shutdown-IsOver_example : IsOver (
    check_graceful_shutdown none 130
      (record (shutdown_gracefully none 100 30 service) { world = tables }))
check_graceful_shutdown-IsOver_example =
    check_graceful_shutdown-IsOver none 100 30 130 service tables refl (omega arith)
