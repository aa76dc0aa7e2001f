-- ===== src/Events/State.antt =====
-- What EventHandlers (src/core/event_handlers.h) is given and what its handlers share. A pointer to a
-- connection is good as long as `connections` holds the descriptor.
use loadbalancer.Base.{
  ℕ, Bool, true, false, not, ◌||◌, Option, none, some, List, [], ◌∷◌, ◌++◌, ℕ_keys, find, assign,
  is_empty, ltb, if◌then◌else◌,
}
use loadbalancer.Memory.{MemoryBudget}
use loadbalancer.Net.Connection.{
  Connection, ConnectionState, established, handshake, connecting, closed, is_established, Received,
  Sent,
}
use loadbalancer.Connector.State.{Balancer}

pub data EventType : Type 0 where
  read write error hup : EventType

-- `mod_fd fd in out` sets the events EPOLLIN and EPOLLOUT; `shut_wr` is `shutdown` with SHUT_WR.
pub data Io : Type 0 where
  mod_fd : ℕ → Bool → Bool → Io
  shut_wr : ℕ → Io

pub record Scene : Type 0 where
  pub balancer : Balancer
  pub io : List Io

-- A handler returns, or uses a connection that is gone.
pub data Handled : Type 0 where
  done : Scene → Handled
  undefined : Handled

-- `SSL_accept`: success, what it waits for, or a failure, a missing SSL object included.
pub data TlsAnswer : Type 0 where
  accepted want_read want_write failed : TlsAnswer

-- The functions of the constructor, and its two settings. `connection_timeout` is in units of the clock.
pub record Callbacks : Type 0 where
  pub check_backpressure : ℕ → Balancer → Balancer
  pub start_backpressure : ℕ → Balancer → Balancer
  pub close_connection : ℕ → Balancer → Balancer
  pub close_backend_only : ℕ → Balancer → Balancer
  pub forward_data : ℕ → ℕ → Scene → Scene
  pub retry : ℕ → Connection → ℕ → Scene → Handled
  pub on_tls_handshake_complete : ℕ → Scene → Handled
  pub use_splice : Bool
  pub connection_timeout : ℕ

-- What the clock, the kernel and OpenSSL give to one call: `connected` says that SO_ERROR is 0.
pub record Inputs : Type 0 where
  pub now : ℕ
  pub incoming : ℕ → Received
  pub outgoing : List ℕ → Sent
  pub pending_kernel : ℕ → ℕ
  pub connected : Bool
  pub tls : TlsAnswer

abbrev pub act : (Balancer → Balancer) → Scene → Scene
act f x = record x { balancer = f x.balancer }

abbrev pub issue : Io → Scene → Scene
issue e x = record x { io = x.io ++ e ∷ [] }

abbrev pub conn_at : ℕ → Scene → Option Connection
conn_at fd x = find fd x.balancer.world.connections

unfoldable pub use_found : Option Connection → (Connection → Handled) → Handled
use_found none f = undefined
use_found (some c) f = f c

-- The handler goes on with its connection.
unfoldable pub with_conn : ℕ → Scene → (Connection → Handled) → Handled
unfolding use_found
with_conn fd x f = use_found (conn_at fd x) f

unfoldable pub put_conn : ℕ → Connection → MemoryBudget → Scene → Scene
put_conn fd c budget x =
    act
      (λ b. record b {
        world = record (b.world) { connections = assign fd c b.world.connections; budget = budget };
      })
      x

unfoldable pub is_ready : Option Connection → Bool
is_ready none = false
is_ready (some c) = is_established c.state

-- The peer, where there is one and it is established.
unfoldable pub peer_if_ready : Option ℕ → Scene → Option ℕ
unfolding is_ready
peer_if_ready none x = none
peer_if_ready (some p) x = if is_ready (conn_at p x) then some p else none

unfoldable pub ready_peer : Connection → Scene → Option ℕ
unfolding peer_if_ready
ready_peer c x = peer_if_ready c.peer x

abbrev pub is_handshake : ConnectionState → Bool
is_handshake established = false
is_handshake handshake = true
is_handshake connecting = false
is_handshake closed = false

abbrev pub is_connecting : ConnectionState → Bool
is_connecting established = false
is_connecting handshake = false
is_connecting connecting = true
is_connecting closed = false

-- `has_pending_send`, with the kernel's queue of the descriptor.
abbrev pub has_pending_send : Inputs → ℕ → Connection → Bool
has_pending_send i fd c = not (is_empty c.write_buf) || ltb 0 (i.pending_kernel fd)

unfoldable pub forward_to : Callbacks → ℕ → Connection → Option ℕ → Scene → Scene
forward_to k fd c none x = x
forward_to k fd c (some p) x = if is_empty c.read_buf then x else k.forward_data fd p x

-- What was read goes to a peer that is ready.
unfoldable pub forward_ready : Callbacks → ℕ → Connection → Scene → Scene
unfolding forward_to
forward_ready k fd c x = forward_to k fd c (ready_peer c x) x

unfoldable pub pressure_if_pending : Callbacks → Inputs → ℕ → Connection → Scene → Scene
pressure_if_pending k i fd c x =
    if has_pending_send i fd c then act (k.start_backpressure fd) x else x
