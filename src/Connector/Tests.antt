-- ===== src/Connector/Tests.antt =====
-- A client that comes in by descriptor 7, and its way to a backend.
use loadbalancer.Base.{ℕ, length, zero, suc, ◌≡◌, refl, true, Option, none, some, [], ◌∷◌, arith}
use loadbalancer.Backend.Node.{Nodes, new_node, update, increment_failures}
use loadbalancer.Backend.Pool.{round_robin}
use loadbalancer.Backend.Exact.{exact}
use loadbalancer.Net.Connection.{new_connection, close, set_memory_accounting}
use loadbalancer.Pooling.{nothing_yet}
use loadbalancer.World.Gauges.{new_metrics}
use loadbalancer.Connector.State.{Settings, Balancer, Attempt, Dial, dialled, in_progress, refused}
use loadbalancer.Connector.Retrying.{Ended, connect_ends}
use loadbalancer.Connector.{
  connect, connect_new, dial, place, enter, node_connected, node_failed, retry_asked, undefined,
  init_connection, placed, dropped, Connected,
}

abbrev settings : Settings
settings = record {
  max_connections_per_backend = 10;
  sticky_sessions_enabled = true;
  sticky_sessions_ttl_seconds = 60;
  ticks = 1000;
  accounts = true;
}

abbrev one_node : Nodes
one_node r = new_node [] 80 1

abbrev start : Balancer
start = record {
  world = record {
    connections = [];
    backend_connections = [];
    connection_times = (7, 100) ∷ [];
    backpressure_times = [];
    client_retry_counts = [];
    backend_to_client = [];
    requests = [];
    nodes = one_node;
    alive = λ r. true;
    budget = record { used_bytes = 0; limit_bytes = 1000 };
    metrics = new_metrics;
    pooled = [];
    outside = [];
  };
  pool = record {
    backends = 0 ∷ [];
    algorithm = round_robin;
    round_robin_index = 0;
    weighted_counter = 0;
  };
  sessions = [];
  session_keys = [];
  pools = none;
  backend_infos = [];
  backend_routed = [];
  backend_failures = [];
}

abbrev dials : ℕ → Dial
dials zero = dialled
dials (suc zero) = in_progress
dials (suc (suc i)) = refused

-- The first two sockets are refused by the backend, the third is on its way.
abbrev attempts : ℕ → Attempt
attempts i = record {
  now = 200;
  peek = λ fd. nothing_yet;
  made = none;
  socket = some 9;
  resolved = true;
  dialling = dials i;
}

connect_ends_example :
    (o : Connected) × (connect exact settings 4 attempts 7 0 [] (new_connection 7) start ≡ some o)
    × Ended 7 0 (init_connection settings (new_connection 7)) start.world o
connect_ends_example =
    connect_ends exact settings attempts 7 4 0 [] (new_connection 7) start (λ i. (λ fd. refl, tt))
      tt (omega arith) (omega arith)

abbrev retries : Connected → Option ℕ
retries (placed fd b) = some (length b.world.outside)
retries (dropped b) = none
retries (retry_asked c b) = some (b.world.nodes 0).failure_count
retries undefined = none

refused_run :
    retries (connect_new settings (attempts 3) 7 0 0 (new_connection 7) (some 9) start) ≡ some 1
unfolding connect_new dial node_failed close new_connection set_memory_accounting update
    increment_failures new_node
refused_run = refl

placed_run :
    retries (connect_new settings (attempts 0) 7 0 0 (new_connection 7) (some 9) start) ≡ some 2
unfolding connect_new dial place enter node_connected
placed_run = refl
