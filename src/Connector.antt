-- ===== src/Connector.antt =====
-- src/core/backend_connector.h and backend_connector.cpp, with the retry handler that
-- src/core/load_balancer.cpp puts behind it. The callback that tells the HTTP forwarder which backend
-- was selected, for the access log, is left out.
pub mod State
pub mod Placement
pub mod Ends
pub mod Retrying
mod Tests
use loadbalancer.Base.{
  ℕ, zero, suc, ◌+◌, Bool, true, false, not, ◌&&◌, Option, none, some, List, [], ◌∷◌, ◌++◌, Text,
  text_keys, ℕ_keys, is_empty, ltb, u64, if◌then◌else◌, Map, find, assign,
}
use loadbalancer.Backend.Float.{Float}
use loadbalancer.Backend.Node.{
  Nodes, BackendNode, update, increment_connections, increment_failures,
}
use loadbalancer.Backend.Pool.{BackendPool, select_backend}
use loadbalancer.Memory.{MemoryBudget}
use loadbalancer.Net.Connection.{
  Connection, established, connecting, new_connection, set_memory_accounting, close,
}
use loadbalancer.Pooling.Manager.{
  ConnectionPoolManager, ManagerBorrowed, manager_lent, manager_refused, manager_undefined,
  borrow_from, make_key,
}
use loadbalancer.Session.{SessionInfo, get_session, set_session}
use loadbalancer.Timeouts.{Retried, gave_up, connects, retry}
use loadbalancer.World.{World, add_fd, note}
use loadbalancer.World.Gauges.{
  Metrics, increment_connections_active, increment_backend_routes_failed,
}
use State.{BackendInfo, Settings, Balancer, Dial, dialled, in_progress, refused, Attempt}

-- The callback that src/core/load_balancer.cpp sets: attach_memory_accounting.
abbrev pub init_connection : Settings → Connection → Connection
init_connection s c = if s.accounts then set_memory_accounting c else c

session_address : Option SessionInfo → Text × ℕ
session_address none = ([], 0)
session_address (some i) = (i.backend_host, i.backend_port)

abbrev is_sticky : Settings → Text → Bool
is_sticky s key = s.sticky_sessions_enabled && not (is_empty key)

sticky_address : Settings → Text → ℕ → Balancer → Text × ℕ
sticky_address s key now b =
    if is_sticky s key then session_address (get_session key now b.sessions) else ([], 0)

keep_session : Settings → Text → BackendNode → ℕ → Balancer → Balancer
keep_session s key node now b =
    if is_sticky s key
    then record b {
      sessions =
          set_session s.ticks key node.host node.port s.sticky_sessions_ttl_seconds now b.sessions;
    }
    else b

unfoldable pub or_zero : Option ℕ → ℕ
or_zero none = 0
or_zero (some n) = n

-- `counters[key]++`
unfoldable pub count_up : Text → Map Text ℕ → Map Text ℕ
count_up key m = assign key (u64 (or_zero (find key m) + 1)) m

abbrev pub node_key : BackendNode → Text
node_key node = make_key node.host node.port

-- What one call of `connect` comes to.
pub data Connected : Type 0 where
  placed : ℕ → Balancer → Connected
  dropped : Balancer → Connected
  retry_asked : Connection → Balancer → Connected
  undefined : Connected

-- The client is closed, and destroyed when `connect` returns.
drop_client : Connection → Balancer → Connected
drop_client c b =
    dropped (record b { world = record (b.world) { budget = (close c b.world.budget).1 } })

-- No backend may serve.
route_failed : Connection → Balancer → Connected
route_failed c b = drop_client c (record b {
  world = record (b.world) { metrics = increment_backend_routes_failed b.world.metrics };
})

unfoldable pub node_failed : ℕ → Balancer → Balancer
node_failed r b = record b {
  world = record (b.world) { nodes = update r increment_failures b.world.nodes };
  backend_failures = count_up (node_key (b.world.nodes r)) b.backend_failures;
}

-- The backend has one connection more.
unfoldable pub node_connected : ℕ → Balancer → Balancer
node_connected r b = record b {
  world = record (b.world) {
    nodes = update r increment_connections b.world.nodes;
    metrics = increment_connections_active b.world.metrics;
  };
  backend_routed = count_up (node_key (b.world.nodes r)) b.backend_routed;
}

-- Both connections enter the tables, as peers.
pub enter : ℕ → Connection → ℕ → Connection → ℕ → ℕ → ℕ → World → World
enter client_fd client backend_fd backend r retry_count now w =
    let conns = assign client_fd (record client { peer = some backend_fd }) w.connections in
    record w {
      connections = assign backend_fd (record backend { peer = some client_fd }) conns;
      backend_connections = assign backend_fd r w.backend_connections;
      connection_times = assign backend_fd now w.connection_times;
      backend_to_client = assign backend_fd client_fd w.backend_to_client;
      client_retry_counts = assign client_fd retry_count w.client_retry_counts;
      outside = w.outside ++ add_fd client_fd ∷ add_fd backend_fd ∷ [];
    }

place : ℕ → Connection → ℕ → Connection → ℕ → Bool → ℕ → ℕ → Balancer → Connected
place client_fd client backend_fd backend r pooled retry_count now b = placed backend_fd (record b {
  world = enter client_fd client backend_fd backend r retry_count now b.world;
  backend_infos =
      assign backend_fd
        (record { host = (b.world.nodes r).host; port = (b.world.nodes r).port; pooled = pooled })
        b.backend_infos;
})

or_no_info : Option BackendInfo → BackendInfo
or_no_info none = record { host = []; port = 0; pooled = false }
or_no_info (some i) = i

pub get_backend_info : ℕ → Balancer → BackendInfo
get_backend_info backend_fd b = or_no_info (find backend_fd b.backend_infos)

module _ (s : Settings) (a : Attempt) (client_fd retry_count r : ℕ) (client : Connection) where
  -- A new socket, once the address is resolved.
  dial : ℕ → Dial → Balancer → Connected
  dial fd refused b =
      let backend = init_connection s (new_connection fd) in
      let b' = node_failed r b in
      retry_asked client
        (record b' { world = record (b'.world) { budget = (close backend b'.world.budget).1 } })
  dial fd dialled b =
      let backend = record (init_connection s (new_connection fd)) { state = established } in
      place client_fd client fd backend r false retry_count a.now (node_connected r b)
  dial fd in_progress b =
      let backend = record (init_connection s (new_connection fd)) { state = connecting } in
      place client_fd client fd backend r false retry_count a.now b

  connect_new : Option ℕ → Balancer → Connected
  connect_new none b = drop_client client b
  connect_new (some fd) b =
      if a.resolved then dial fd a.dialling b else drop_client client (node_failed r b)

  -- A connection of the pool has its descriptor: `release` keeps no other.
  connect_lent : Option ℕ → Connection → Balancer → Connected
  connect_lent none backend b = undefined
  connect_lent (some fd) backend b =
      place client_fd client fd (init_connection s backend) r true retry_count a.now
        (node_connected r b)

  connect_borrowed : ManagerBorrowed → Balancer → Connected
  connect_borrowed (manager_lent backend m) b =
      connect_lent backend.fd backend (record b { pools = some m })
  connect_borrowed (manager_refused m) b = connect_new a.socket (record b { pools = some m })
  connect_borrowed manager_undefined b = undefined

  connect_pooled : Option ConnectionPoolManager → Balancer → Connected
  connect_pooled none b = connect_new a.socket b
  connect_pooled (some m) b =
      let node = b.world.nodes r in
      connect_borrowed (borrow_from a.peek a.made node.host node.port m) b

module _ (fl : Float) (s : Settings) where
  connect_selected :
      Attempt → ℕ → ℕ → Text → Connection → BackendPool × Option ℕ → Balancer → Connected
  connect_selected a client_fd retry_count key client (pool, none) b =
      route_failed client (record b { pool = pool })
  connect_selected a client_fd retry_count key client (pool, some r) b =
      let b' = keep_session s key (b.world.nodes r) a.now (record b { pool = pool }) in
      connect_pooled s a client_fd retry_count r client b'.pools b'

  -- One call of `connect`; `client_fd` is the descriptor of the client.
  pub connect_once : Attempt → ℕ → ℕ → Text → Connection → Balancer → Connected
  connect_once a client_fd retry_count key c b =
      let (host, port) = sticky_address s key a.now b in
      connect_selected a client_fd retry_count key (init_connection s c)
        (select_backend fl b.world.nodes s.max_connections_per_backend host port b.pool) b

  -- The retry handler's callback looks up the session key of the client.
  abbrev session_key_found : Option Text → Text
  session_key_found none = []
  session_key_found (some key) = key

  -- `none` means that the fuel ran out; `attempts n` is what the outside gives with `n` fuel left.
  pub connect : ℕ → (ℕ → Attempt) → ℕ → ℕ → Text → Connection → Balancer → Option Connected
  connect zero attempts client_fd retry_count key c b = none
  connect (suc fuel) attempts client_fd retry_count key c b =
      elim (connect_once (attempts fuel) client_fd retry_count key c b) [
        | placed fd b' ↦ some (placed fd b')
        | dropped b' ↦ some (dropped b')
        | undefined ↦ some undefined
        | retry_asked c' b' ↦ elim (retry c' retry_count b'.world.budget b'.world.metrics) [
          | gave_up c'' budget metrics ↦ some (
              dropped
                (record b' { world = record (b'.world) { budget = budget; metrics = metrics } }))
          | connects c'' n ↦
              connect fuel attempts client_fd n (session_key_found (find client_fd b'.session_keys))
                c'' b'
        ]
      ]
