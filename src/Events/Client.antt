-- ===== src/Events/Client.antt =====
-- handle_client_event and handle_tls_handshake of src/core/event_handlers.cpp.
use loadbalancer.Base.{
  ℕ, Bool, true, false, not, ◌&&◌, Option, none, some, is_some, ℕ_keys, if◌then◌else◌,
}
use loadbalancer.Memory.{MemoryBudget}
use loadbalancer.Net.Connection.{
  Connection, established, is_established, is_closed, read_from_fd, write_to_fd,
}
use loadbalancer.Events.State.{
  EventType, read, write, error, hup, mod_fd, shut_wr, Scene, Handled, done, undefined, TlsAnswer,
  accepted, want_read, want_write, failed, Callbacks, Inputs, act, issue, conn_at, with_conn,
  put_conn, ready_peer, is_handshake, forward_ready, pressure_if_pending,
}

module _ (k : Callbacks) (i : Inputs) (fd : ℕ) where
  unfoldable pub tls_answered : TlsAnswer → Connection → Scene → Handled
  tls_answered accepted c x = k.on_tls_handshake_complete fd (
      issue (mod_fd fd true true)
        (put_conn fd (record c { state = established }) x.balancer.world.budget x))
  tls_answered want_read c x = done (issue (mod_fd fd true false) x)
  tls_answered want_write c x = done (issue (mod_fd fd false true) x)
  tls_answered failed c x = done (act (k.close_connection fd) x)

  -- A failure closes the connection, as the caller does on `false`.
  unfoldable pub handle_tls_handshake : Connection → Scene → Handled
  handle_tls_handshake c x =
      if c.is_tls then tls_answered i.tls c x else done (act (k.close_connection fd) x)

  unfoldable pub shut_peer : Option ℕ → Scene → Handled
  shut_peer none x = undefined
  shut_peer (some p) x = done (issue (mod_fd fd false true) (issue (shut_wr p) x))

  -- The client has sent all: the peer is told so, or the connection is closed.
  unfoldable pub client_ended : Connection → Scene → Handled
  client_ended c x =
      if is_some (ready_peer c x)
      then (let y = forward_ready k fd c x in with_conn fd y (λ c'. shut_peer c'.peer y))
      else done (act (k.close_connection fd) x)

  unfoldable pub client_was_read : Connection × MemoryBudget × Bool → Scene → Handled
  client_was_read (c, budget, ok) x =
      let y = put_conn fd c budget x in
      if c.memory_blocked
      then done (issue (mod_fd fd false true) (act (k.start_backpressure fd) y))
      else if c.buffer_full
      then done (forward_ready k fd c (issue (mod_fd fd false true) y))
      else let z = forward_ready k fd c y in
        if ok then done z else with_conn fd z (λ c'. client_ended c' z)

  unfoldable pub splice_to : Option ℕ → Scene → Scene
  splice_to none x = x
  splice_to (some p) x = k.forward_data fd p x

  unfoldable pub client_read : Connection → Scene → Handled
  client_read c x =
      if not (is_established c.state)
      then done x
      else if k.use_splice && is_some (ready_peer c x)
      then done (splice_to (ready_peer c x) x)
      else client_was_read (read_from_fd i.incoming c x.balancer.world.budget) x

  unfoldable pub wake_peer : Option ℕ → Scene → Scene
  wake_peer none x = x
  wake_peer (some p) x = issue (mod_fd p true true) x

  unfoldable pub press_found : ℕ → Option Connection → Scene → Scene
  press_found p none x = x
  press_found p (some c) x = pressure_if_pending k i p c x

  -- The peer in whatever state.
  unfoldable pub press_peer : Option ℕ → Scene → Scene
  press_peer none x = x
  press_peer (some p) x = press_found p (conn_at p x) x

  unfoldable pub client_was_written : Connection × MemoryBudget × Bool → Scene → Handled
  client_was_written (c, budget, false) x =
      done (act (k.close_connection fd) (put_conn fd c budget x))
  client_was_written (c, budget, true) x =
      let y = put_conn fd c budget x in
      let y1 = if c.memory_blocked then y else issue (mod_fd fd true true) y in
      let y2 = pressure_if_pending k i fd c y1 in
      done (press_peer c.peer (wake_peer (ready_peer c y2) y2))

  unfoldable pub client_write : Connection → Scene → Handled
  client_write c x =
      if is_established c.state
      then client_was_written (write_to_fd i.outgoing c x.balancer.world.budget) x
      else done x

  -- Behind the check of the backpressure.
  unfoldable pub client_event : EventType → Scene → Handled
  client_event error x = done (act (k.close_connection fd) x)
  client_event hup x = done (act (k.close_connection fd) x)
  client_event read x =
      with_conn fd x
        (λ c. if is_handshake c.state then handle_tls_handshake c x else client_read c x)
  client_event write x =
      with_conn fd x
        (λ c. if is_handshake c.state then handle_tls_handshake c x else client_write c x)

  unfoldable pub client_found : EventType → Option Connection → Scene → Handled
  client_found type none x = done x
  client_found type (some c) x =
      if is_closed c.state then done x else client_event type (act (k.check_backpressure fd) x)

  unfoldable pub handle_client_event : EventType → Scene → Handled
  handle_client_event type x = client_found type (conn_at fd x) x
