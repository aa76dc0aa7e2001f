-- ===== src/Events/Backend.antt =====
-- handle_backend_event of src/core/event_handlers.cpp.
use loadbalancer.Base.{
  ℕ, ◌+◌, Bool, true, false, not, ◌&&◌, Option, none, some, is_some, ℕ_keys, find, erase, ltb,
  if◌then◌else◌, is_empty,
}
use loadbalancer.Memory.{MemoryBudget}
use loadbalancer.Net.Connection.{
  Connection, ConnectionState, established, handshake, connecting, closed, is_established,
  is_closed, read_from_fd, write_to_fd,
}
use loadbalancer.Connector.State.{Balancer}
use loadbalancer.Connector.{node_failed, node_connected}
use loadbalancer.Events.State.{
  EventType, read, write, error, hup, mod_fd, shut_wr, Scene, Handled, done, undefined, Callbacks,
  Inputs, act, issue, conn_at, with_conn, put_conn, ready_peer, is_connecting, forward_ready,
  pressure_if_pending,
}

unfoldable pub or_first : Option ℕ → ℕ
or_first none = 0
or_first (some n) = n

-- What is counted for the backend of a connection, where a `std::weak_ptr` can still lock it.
unfoldable pub on_node : (ℕ → Balancer → Balancer) → Option ℕ → Balancer → Balancer
on_node f none b = b
on_node f (some r) b = if b.world.alive r then f r b else b

unfoldable pub on_backend : (ℕ → Balancer → Balancer) → ℕ → Balancer → Balancer
unfolding on_node
on_backend f fd b = on_node f (find fd b.world.backend_connections) b

unfoldable pub erase_conn : ℕ → Balancer → Balancer
erase_conn fd b = record b {
  world = record (b.world) { connections = erase fd b.world.connections };
}

module _ (k : Callbacks) (i : Inputs) (fd : ℕ) where
  -- The client is taken out of the table and tries another backend.
  unfoldable pub retry_client : ℕ → ℕ → Scene → Handled
  retry_client client_fd retry_count x =
      let y = act (k.close_backend_only fd) x in
      with_conn client_fd y (λ c. k.retry client_fd c retry_count (act (erase_conn client_fd) y))

  unfoldable pub retry_found : ℕ → Option Connection → Scene → Option Handled
  retry_found client_fd none x = none
  retry_found client_fd (some c) x =
      some
        (retry_client client_fd (or_first (find client_fd x.balancer.world.client_retry_counts)) x)

  unfoldable pub retry_for : Option ℕ → Scene → Option Handled
  retry_for none x = none
  retry_for (some client_fd) x = retry_found client_fd (conn_at client_fd x) x

  -- `none` is the `false` of the code.
  unfoldable pub try_retry_on_backend_error : Scene → Option Handled
  try_retry_on_backend_error x = retry_for (find fd x.balancer.world.backend_to_client) x

  unfoldable pub or_close : Option Handled → Scene → Handled
  or_close none x = done (act (k.close_connection fd) x)
  or_close (some h) x = h

  -- The backend could not be reached.
  unfoldable pub backend_failed : Scene → Handled
  backend_failed x =
      let y = act (on_backend node_failed fd) x in or_close (try_retry_on_backend_error y) y

  unfoldable pub shut_ready : Option ℕ → Scene → Handled
  shut_ready none x = done (act (k.close_backend_only fd) x)
  shut_ready (some p) x =
      with_conn p x (λ c.
        done (act (k.close_backend_only fd) (issue (shut_wr p) (issue (mod_fd p true true) x))))

  unfoldable pub drained : Connection × MemoryBudget × Bool → Scene → Handled
  drained (c, budget, ok) x =
      let y = put_conn fd c budget x in shut_ready (ready_peer c y) (forward_ready k fd c y)

  unfoldable pub backend_hung_up : ConnectionState → Connection → Scene → Handled
  backend_hung_up connecting c x = backend_failed x
  backend_hung_up established c x = drained (read_from_fd i.incoming c x.balancer.world.budget) x
  backend_hung_up handshake c x = done (act (k.close_connection fd) x)
  backend_hung_up closed c x = done (act (k.close_connection fd) x)

  unfoldable pub shut_peer : Option ℕ → Scene → Handled
  shut_peer none x = undefined
  shut_peer (some p) x = done (act (k.close_backend_only fd) (issue (shut_wr p) x))

  -- The backend has sent all.
  unfoldable pub backend_ended : Connection → Scene → Handled
  backend_ended c x =
      if is_some (ready_peer c x)
      then (let y = forward_ready k fd c x in with_conn fd y (λ c'. shut_peer c'.peer y))
      else done (act (k.close_backend_only fd) x)

  unfoldable pub backend_was_read : Connection × MemoryBudget × Bool → Scene → Handled
  backend_was_read (c, budget, ok) x =
      let y = put_conn fd c budget x in
      if c.memory_blocked
      then done (issue (mod_fd fd false true) (act (k.start_backpressure fd) y))
      else if c.buffer_full
      then done (forward_ready k fd c (issue (mod_fd fd false true) y))
      else let z = forward_ready k fd c y in
        if ok then done z else with_conn fd z (λ c'. backend_ended c' z)

  unfoldable pub splice_to : Option ℕ → Scene → Scene
  splice_to none x = x
  splice_to (some p) x = k.forward_data fd p x

  unfoldable pub backend_read : Connection → Scene → Handled
  backend_read c x =
      if not (is_established c.state)
      then done x
      else if k.use_splice && is_some (ready_peer c x)
      then done (splice_to (ready_peer c x) x)
      else backend_was_read (read_from_fd i.incoming c x.balancer.world.budget) x

  unfoldable pub wake_found : ℕ → Option Connection → Scene → Scene
  wake_found p none x = x
  wake_found p (some c) x =
      pressure_if_pending k i p c
        (issue (mod_fd p (not c.memory_blocked && not c.buffer_full) true) x)

  unfoldable pub wake_peer : Option ℕ → Scene → Scene
  wake_peer none x = x
  wake_peer (some p) x = wake_found p (conn_at p x) x

  unfoldable pub backend_was_written : Connection × MemoryBudget × Bool → Scene → Handled
  backend_was_written (c, budget, false) x =
      done (act (k.close_connection fd) (put_conn fd c budget x))
  backend_was_written (c, budget, true) x =
      let y = pressure_if_pending k i fd c (put_conn fd c budget x) in
      done (wake_peer (ready_peer c y) y)

  unfoldable pub backend_write : Connection → Scene → Handled
  backend_write c x =
      if is_established c.state
      then backend_was_written (write_to_fd i.outgoing c x.balancer.world.budget) x
      else done x

  unfoldable pub backend_io : EventType → Connection → Scene → Handled
  backend_io read c x = backend_read c x
  backend_io write c x = backend_write c x
  backend_io error c x = done x
  backend_io hup c x = done x

  -- What the client has sent so far goes to the backend.
  unfoldable pub forward_found : ℕ → Option Connection → Scene → Scene
  forward_found p none x = x
  forward_found p (some c) x = if is_empty c.read_buf then x else k.forward_data p fd x

  unfoldable pub forward_from : Option ℕ → Scene → Scene
  forward_from none x = x
  forward_from (some p) x = forward_found p (conn_at p x) x

  -- The connection is up, and the event is handled as for any other.
  unfoldable pub backend_connected : EventType → Connection → Scene → Handled
  backend_connected type c x =
      let c' = record c { state = established } in
      let y = act (on_backend node_connected fd) (put_conn fd c' x.balancer.world.budget x) in
      let z = issue (mod_fd fd true true) y in
      let z' = forward_from (ready_peer c' z) z in with_conn fd z' (λ d. backend_io type d z')

  unfoldable pub has_timed_out : Option ℕ → Bool
  has_timed_out none = false
  has_timed_out (some start) = ltb (start + k.connection_timeout) i.now

  unfoldable pub backend_connecting : EventType → Connection → Scene → Handled
  backend_connecting type c x =
      if has_timed_out (find fd x.balancer.world.connection_times)
      then backend_failed x
      else if i.connected
      then backend_connected type c x
      else backend_failed x

  unfoldable pub backend_ready : EventType → Connection → Scene → Handled
  backend_ready type c x =
      if is_connecting c.state then backend_connecting type c x else backend_io type c x

  -- Behind the check of the backpressure.
  unfoldable pub backend_event : EventType → Connection → Scene → Handled
  backend_event error c x = backend_hung_up c.state c x
  backend_event hup c x = backend_hung_up c.state c x
  backend_event read c x = backend_ready read c x
  backend_event write c x = backend_ready write c x

  unfoldable pub backend_found : EventType → Option Connection → Scene → Handled
  backend_found type none x = done x
  backend_found type (some c) x =
      let y = act (k.check_backpressure fd) x in
      if is_closed c.state then done x else with_conn fd y (λ d. backend_event type d y)

  unfoldable pub handle_backend_event : EventType → Scene → Handled
  handle_backend_event type x = backend_found type (conn_at fd x) x
