-- ===== src/Connector/Ends.antt =====
-- How a call of `connect` ends, on every branch and after every retry.
use loadbalancer.Base.{
  ℕ, ◌≡◌, refl, ◌∙◌, Bool, true, false, Option, none, some, arith, Text, ℕ_keys, if-keeps, OnSome,
  is_some,
}
use loadbalancer.Backend.Float.{Float}
use loadbalancer.Backend.Pool.{BackendPool, select_backend}
use loadbalancer.Memory.{MemoryBudget, release}
use loadbalancer.Net.Connection.{Connection, close, new_connection, set_memory_accounting}
use loadbalancer.Pooling.Manager.Ready.{HasSocket, Live, Ready, Lends, borrow_from-Lends}
use loadbalancer.Backend.Node.{BackendNode}
use loadbalancer.Pooling.Manager.{
  ConnectionPoolManager, ManagerBorrowed, manager_lent, manager_refused, manager_undefined,
  borrow_from,
}
use loadbalancer.World.{World}
use loadbalancer.Connector.State.{Settings, Balancer, Attempt, Dial, dialled, in_progress, refused}
use loadbalancer.Connector.Placement.{IsPlaced, enter-IsPlaced}
use loadbalancer.Connector.{
  init_connection, Connected, placed, dropped, retry_asked, undefined, drop_client, route_failed,
  node_failed, node_connected, place, dial, connect_new, connect_lent, connect_borrowed,
  connect_pooled, is_sticky, sticky_address, connect_selected, keep_session, connect_once,
}

-- The connections are the same and the budget is what it was.
pub record Untouched (w w' : World) : Type 0 where
  pub connections : w'.connections ≡ w.connections
  pub budget : w'.budget ≡ w.budget

-- The client is not entered, and the budget has its bytes back.
pub record IsDropped (c : Connection) (w w' : World) : Type 0 where
  pub connections : w'.connections ≡ w.connections
  pub budget : w'.budget ≡ (close c w.budget).1

-- What the outside gives is sound: no peer of a pooled connection has gone, and a connection that the
-- pool makes has its descriptor.
abbrev pub IsSound : Attempt → Type 0
IsSound a = Live a.peek × OnSome HasSocket a.made

-- The world is as at the start, and what waits in the pools is open.
abbrev Before : World → Balancer → Type 0
Before w b = Untouched w b.world × OnSome Ready b.pools

-- What each outcome of one call says, from the world `w` and the client `c`.
abbrev pub Once : ℕ → ℕ → Connection → World → Connected → Type 0
Once client_fd n c w (placed fd b) = IsPlaced client_fd fd n b.world
Once client_fd n c w (dropped b) = IsDropped c w b.world
Once client_fd n c w (retry_asked c' b) = (c' ≡ c) × Untouched w b.world × OnSome Ready b.pools
Once client_fd n c w undefined = ⊥

-- A connection that holds nothing gives nothing back.
close_new :
    (s : Settings) (fd : ℕ) (b : MemoryBudget)
    → (close (init_connection s (new_connection fd)) b).1 ≡ b
unfolding close new_connection set_memory_accounting release
close_new s fd b = ground arith

module _ (s : Settings) (a : Attempt) (client_fd n r : ℕ) (c : Connection) (w : World) where
  place-Once :
      (fd : ℕ) (k : Connection) (pooled : Bool) (now : ℕ) (b : Balancer)
      → Once client_fd n c w (place client_fd c fd k r pooled n now b)
  unfolding place
  place-Once fd k pooled now b = enter-IsPlaced client_fd c fd k r n now b.world

  drop_client-Once : (b : Balancer) → Before w b → Once client_fd n c w (drop_client c b)
  unfolding drop_client
  drop_client-Once b (h, g) = record { connections = h.connections; budget = rw h.budget refl }

  dial-Once :
      (fd : ℕ) (d : Dial) (b : Balancer)
      → Before w b
      → Once client_fd n c w (dial s a client_fd n r c fd d b)
  unfolding dial node_failed node_connected
  dial-Once fd refused b (h, g) = (
    refl,
    record { connections = h.connections; budget = close_new s fd b.world.budget ∙ h.budget },
    g,
  )
  dial-Once fd dialled b h = place-Once fd _ false a.now (node_connected r b)
  dial-Once fd in_progress b h = place-Once fd _ false a.now b

  connect_new-Once :
      (o : Option ℕ) (b : Balancer)
      → Before w b
      → Once client_fd n c w (connect_new s a client_fd n r c o b)
  unfolding connect_new node_failed
  connect_new-Once none b h = drop_client-Once b h
  connect_new-Once (some fd) b h =
      if-keeps (Once client_fd n c w) a.resolved (λ e. dial-Once fd a.dialling b h)
        (λ e.
          drop_client-Once (node_failed r b)
            (record { connections = h.0.connections; budget = h.0.budget }, h.1))

  connect_lent-Once :
      (o : Option ℕ) (k : Connection) (b : Balancer)
      → is_some o ≡ true
      → Once client_fd n c w (connect_lent s a client_fd n r c o k b)
  unfolding connect_lent
  connect_lent-Once none k b h = cc
  connect_lent-Once (some fd) k b h = place-Once fd _ true a.now (node_connected r b)

  connect_borrowed-Once :
      (o : ManagerBorrowed) (b : Balancer)
      → Lends o
      → Untouched w b.world
      → Once client_fd n c w (connect_borrowed s a client_fd n r c o b)
  unfolding connect_borrowed
  connect_borrowed-Once (manager_lent k m) b g h =
      connect_lent-Once k.fd k (record b { pools = some m }) g.0.0
  connect_borrowed-Once (manager_refused m) b g h =
      connect_new-Once a.socket (record b { pools = some m }) (h, g)
  connect_borrowed-Once manager_undefined b g h = g

  connect_pooled-Once :
      (o : Option ConnectionPoolManager) (b : Balancer)
      → IsSound a
      → OnSome Ready o
      → Before w b
      → Once client_fd n c w (connect_pooled s a client_fd n r c o b)
  unfolding connect_pooled
  connect_pooled-Once none b k g h = connect_new-Once a.socket b h
  connect_pooled-Once (some m) b k g h =
      let node = b.world.nodes r in
      connect_borrowed-Once (borrow_from a.peek a.made node.host node.port m) b
        (borrow_from-Lends a.peek k.0 a.made node.host node.port m k.1 g) h.0

keep_session-Before :
    (s : Settings) (key : Text) (node : BackendNode) (now : ℕ) (w : World) (b : Balancer)
    → Before w b
    → Before w (keep_session s key node now b)
unfolding keep_session
keep_session-Before s key node now w b h = if-keeps (Before w) (is_sticky s key) (λ e. h) (λ e. h)

module _ (fl : Float) (s : Settings) (a : Attempt) (client_fd n : ℕ) (key : Text)
    (c : Connection) where
  connect_selected-Once :
      (chosen : BackendPool × Option ℕ) (b : Balancer)
      → IsSound a
      → OnSome Ready b.pools
      → Once client_fd n c b.world (connect_selected fl s a client_fd n key c chosen b)
  unfolding connect_selected route_failed drop_client
  connect_selected-Once (pool, none) b k g = record { connections = refl; budget = refl }
  connect_selected-Once (pool, some r) b k g =
      let b' = keep_session s key (b.world.nodes r) a.now (record b { pool = pool }) in
      let h =
        keep_session-Before s key (b.world.nodes r) a.now b.world (record b { pool = pool })
          (record { connections = refl; budget = refl }, g) in
      connect_pooled-Once s a client_fd n r c b.world b'.pools b' k h.1 h

pub connect_once-Once :
    (fl : Float) (s : Settings) (a : Attempt) (client_fd n : ℕ) (key : Text) (c : Connection)
    (b : Balancer)
    → IsSound a
    → OnSome Ready b.pools
    → Once client_fd n (init_connection s c) b.world (connect_once fl s a client_fd n key c b)
unfolding connect_once
connect_once-Once fl s a client_fd n key c b k g =
    let address = sticky_address s key a.now b in
    connect_selected-Once fl s a client_fd n key (init_connection s c)
      (select_backend fl b.world.nodes s.max_connections_per_backend address.0 address.1 b.pool) b k
      g
