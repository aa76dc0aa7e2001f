-- ===== src/Events/Tests.antt =====
-- A client that has been under backpressure for too long.
use loadbalancer.Base.{◌≡◌, refl, inl, true, false, none, some, [], ◌∷◌, ℕ_keys, find}
use loadbalancer.Backend.Node.{new_node}
use loadbalancer.Backend.Pool.{round_robin}
use loadbalancer.Net.Connection.{
  Connection, new_connection, established, try_later, blocked, is_closed,
}
use loadbalancer.Timeouts.{check_timeout, check_found}
use loadbalancer.World.Gauges.{new_metrics}
use loadbalancer.Events.State.{read, hup, Scene, done, undefined, failed, Callbacks, Inputs}
use loadbalancer.Events.Client.{handle_client_event}
use loadbalancer.Events.Backend.{handle_backend_event}
use loadbalancer.Events.Wiring.{check_backpressure}
use loadbalancer.Events.Stalled.{handle_event_stalled}

abbrev client : Connection
client = record (new_connection 7) { state = established }

-- Descriptor 7 is tracked since 100.
abbrev start : Scene
start = record {
  balancer = record {
    world = record {
      connections = (7, client) ∷ [];
      backend_connections = [];
      connection_times = (7, 100) ∷ [];
      backpressure_times = (7, 100) ∷ [];
      client_retry_counts = [];
      backend_to_client = [];
      requests = [];
      nodes = λ r. new_node [] 80 1;
      alive = λ r. true;
      budget = record { used_bytes = 0; limit_bytes = 1000 };
      metrics = new_metrics;
      pooled = [];
      outside = [];
    };
    pool = record {
      backends = [];
      algorithm = round_robin;
      round_robin_index = 0;
      weighted_counter = 0;
    };
    sessions = [];
    session_keys = [];
    pools = none;
    backend_infos = [];
    backend_routed = [];
    backend_failures = [];
  };
  io = [];
}

abbrev callbacks : Callbacks
callbacks = record {
  check_backpressure = check_backpressure none 500 50;
  start_backpressure = λ fd b. b;
  close_connection = λ fd b. b;
  close_backend_only = λ fd b. b;
  forward_data = λ fd p x. x;
  retry = λ fd c n x. done x;
  on_tls_handshake_complete = λ fd x. done x;
  use_splice = false;
  connection_timeout = 1000;
}

abbrev inputs : Inputs
inputs = record {
  now = 500;
  incoming = λ room. try_later;
  outgoing = λ bs. blocked;
  pending_kernel = λ fd. 0;
  connected = true;
  tls = failed;
}

held : find 7 start.balancer.world.connections ≡ some client
unfolding find
held = refl

open_state : is_closed client.state ≡ false
open_state = refl

late : check_timeout 500 50 7 start.balancer.world.backpressure_times ≡ true
unfolding check_timeout check_found find
late = refl

handle_event_stalled_example :
    (handle_client_event callbacks inputs 7 read start ≡ undefined)
    × (handle_backend_event callbacks inputs 7 hup start ≡ undefined)
handle_event_stalled_example =
    handle_event_stalled callbacks inputs none 50 7 client start read hup (inl refl) refl held
      open_state late
