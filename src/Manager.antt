-- ===== src/Manager.antt =====
-- src/core/connection_manager.cpp.
pub mod Backpressure
pub mod Closing
pub mod Gone
pub mod Retrying
mod Tests
use loadbalancer.Base.{
  ℕ, Bool, true, false, not, ◌&&◌, Option, none, some, List, [], ◌∷◌, length, nat_eq, if◌then◌else◌,
  is_some, Map, find, assign, erase, ℕ_keys, keep_if,
}
use loadbalancer.Backend.Node.{BackendNode, Nodes, update, decrement_connections}
use loadbalancer.Memory.{MemoryBudget}
use loadbalancer.Net.Connection.{
  Connection, established, closed, clear_buffers, is_established, is_closed, close,
}
use loadbalancer.World.{World, RequestStatus, del_fd, access_log, note}
use loadbalancer.World.Gauges.{
  Metrics, decrement_connections_active, decrement_backpressure_active, add_bytes_in, add_bytes_out,
}

unfoldable pub get_connection : ℕ → World → Option Connection
get_connection fd w = find fd w.connections

abbrev is_client : World → ℕ → Bool
is_client w fd = not (is_some (find fd w.backend_connections))

pub count_established_connections : World → ℕ
count_established_connections w =
    length (keep_if (λ e. is_client w e.0 && is_established e.1.state) w.connections)

unfoldable pub count_active_client_connections : World → ℕ
count_active_client_connections w =
    length (keep_if (λ e. is_client w e.0 && not (is_closed e.1.state)) w.connections)

-- The gauge falls when an entry goes.
pub drop_backpressure : ℕ → World → World
drop_backpressure fd w = record w {
  metrics =
      if is_some (find fd w.backpressure_times)
      then decrement_backpressure_active w.metrics
      else w.metrics;
  backpressure_times = erase fd w.backpressure_times;
}

-- The four tables that every way of closing clears in the same way.
forget : ℕ → World → World
unfolding drop_backpressure
forget fd w =
    let w' = drop_backpressure fd (record w { connection_times = erase fd w.connection_times }) in
    record w' {
      client_retry_counts = erase fd w'.client_retry_counts;
      backend_to_client = erase fd w'.backend_to_client;
    }

-- `weak_ptr::lock`, then one connection less if this one was established.
abbrev leave_backend : Bool → Option ℕ → World → World
leave_backend was_established none w = w
leave_backend was_established (some r) w =
    if w.alive r && was_established
    then record w { nodes = update r decrement_connections w.nodes }
    else w

-- The connection leaves its backend.
pub detach : ℕ → Connection → World → World
detach fd c w =
    let w' = leave_backend (is_established c.state) (find fd w.backend_connections) w in
    record w' { backend_connections = erase fd w'.backend_connections }

-- The peer, where there is one, forgets this connection.
abbrev pub unpeer_found : ℕ → Option Connection → World → World
unpeer_found p none w = w
unpeer_found p (some c) w = record w {
  connections = assign p (record c { peer = none }) w.connections;
}

abbrev pub unpeer : Option ℕ → World → World
unpeer none w = w
unpeer (some p) w = unpeer_found p (find p w.connections) w

-- `Connection::close`, which the destructor calls too: the buffers are given back, the peer forgets the
-- connection, and the entry goes.
pub discard : ℕ → Connection → World → World
discard fd c w =
    let w' = unpeer c.peer w in
    record w' { budget = (close c w'.budget).1; connections = erase fd w'.connections }

-- `PoolReleaseCallback`, where pooling is on: whether the pool takes the connection.
abbrev pub PoolRelease : Type 0
PoolRelease = Option (Connection → Bool)

-- What the callback of src/core/load_balancer.cpp does with a connection that it takes.
pool_peer : ℕ → Connection × MemoryBudget → World → World
pool_peer fd (c, b) w = record w {
  budget = b;
  pooled = record c { state = established } ∷ w.pooled;
  connections = erase fd w.connections;
}

pub take_peer : PoolRelease → Bool → ℕ → Connection → World → World
take_peer (some accepts) true fd c w =
    if accepts c then pool_peer fd (clear_buffers c w.budget) w else discard fd c w
take_peer (some accepts) false fd c w = discard fd c w
take_peer none both fd c w = discard fd c w

close_peer : PoolRelease → Bool → ℕ → Option Connection → World → World
close_peer pool client fd none w = w
close_peer pool client fd (some c) w =
    if is_closed c.state
    then discard fd c w
    else let is_backend = is_some (find fd w.backend_connections) in
      let c' : Connection = record c { peer = none } in
      take_peer pool (client && is_backend) fd c' (note (del_fd fd) (forget fd (detach fd c w)))

abbrev visit_peer : PoolRelease → Bool → Option ℕ → World → World
visit_peer pool client none w = w
visit_peer pool client (some fd) w = close_peer pool client fd (find fd w.connections) w

-- The request of a client that goes before its response is complete is logged.
pub log_request : ℕ → Option RequestStatus → World → World
log_request fd none w = w
log_request fd (some r) w =
    if r.has_method && not r.response_complete
    then note (access_log fd) (record w { requests = erase fd w.requests })
    else w

abbrev pub account_client : Bool → ℕ → World → World
account_client true fd w =
    let w' = log_request fd (find fd w.requests) w in
    record w' { metrics = decrement_connections_active w'.metrics }
account_client false fd w = w

-- Entries that map a backend to this client.
abbrev forget_client : ℕ → World → World
forget_client fd w = record w {
  backend_to_client = keep_if (λ e. not (nat_eq e.1 fd)) w.backend_to_client;
}

close_open : PoolRelease → ℕ → Connection → World → World
close_open pool fd c w =
    let client = is_client w fd in
    let w1 = detach fd c w in
    let w2 = record w1 {
      connections = assign fd (record c { state = closed; peer = none }) w1.connections;
      metrics = add_bytes_out c.bytes_written (add_bytes_in c.bytes_read w1.metrics);
    } in
    let w3 = forget_client fd (forget fd (account_client client fd w2)) in
    discard fd (record c { peer = none }) (note (del_fd fd) (visit_peer pool client c.peer w3))

close_found : PoolRelease → ℕ → Option Connection → World → World
close_found pool fd none w = w
close_found pool fd (some c) w =
    if is_closed c.state
    then discard fd c
        (forget fd (record w { backend_connections = erase fd w.backend_connections }))
    else close_open pool fd c w

pub close_connection : PoolRelease → ℕ → World → World
close_connection pool fd w = close_found pool fd (find fd w.connections) w

-- The client's entry in `client_retry_counts` stays: the client tries another backend.
forget_backend : ℕ → World → World
unfolding drop_backpressure
forget_backend fd w =
    let w' = drop_backpressure fd (record w { connection_times = erase fd w.connection_times }) in
    record w' { backend_to_client = erase fd w'.backend_to_client }

close_backend_found : ℕ → Option Connection → World → World
close_backend_found fd none w = w
close_backend_found fd (some c) w =
    let w1 = detach fd c (unpeer c.peer w) in discard fd c (note (del_fd fd) (forget_backend fd w1))

pub close_backend_connection_only : ℕ → World → World
close_backend_connection_only fd w = close_backend_found fd (find fd w.connections) w
