-- ===== src/Manager/Closing.antt =====
-- close_connection of src/core/connection_manager.cpp and the tables.
use loadbalancer.Base.{
  assign, ℕ, ◌≡◌, refl, Bool, true, false, not, ◌&&◌, Option, none, some, if-keeps, is_some, find,
  erase, find-erase-none, find-erase_self, find-keep_if-none, ℕ_keys,
}
use loadbalancer.Backend.Node.{update, decrement_connections}
use loadbalancer.Net.Connection.{Connection, closed, is_established, is_closed}
use loadbalancer.World.Gauges.{add_bytes_in, add_bytes_out}
use loadbalancer.World.{World, RequestStatus, del_fd, note}
use loadbalancer.Manager.{
  PoolRelease, forget, leave_backend, detach, unpeer, unpeer_found, discard, pool_peer, take_peer,
  close_peer, visit_peer, log_request, account_client, forget_client, close_open, close_found,
  close_connection, get_connection,
}

-- No table but `connections` knows the descriptor.
pub record IsForgotten (fd : ℕ) (w : World) : Type 0 where
  pub no_backend : find fd w.backend_connections ≡ none
  pub no_time : find fd w.connection_times ≡ none
  pub no_backpressure : find fd w.backpressure_times ≡ none
  pub no_retries : find fd w.client_retry_counts ≡ none
  pub no_client : find fd w.backend_to_client ≡ none

forget-keeps : (fd g : ℕ) (w : World) → IsForgotten fd w → IsForgotten fd (forget g w)
unfolding forget
forget-keeps fd g w h = record {
  no_backend = h.no_backend;
  no_time = find-erase-none g fd _ h.no_time;
  no_backpressure = find-erase-none g fd _ h.no_backpressure;
  no_retries = find-erase-none g fd _ h.no_retries;
  no_client = find-erase-none g fd _ h.no_client;
}

forget_makes :
    (fd : ℕ) (w : World) → find fd w.backend_connections ≡ none → IsForgotten fd (forget fd w)
unfolding forget
forget_makes fd w h = record {
  no_backend = h;
  no_time = find-erase_self fd _;
  no_backpressure = find-erase_self fd _;
  no_retries = find-erase_self fd _;
  no_client = find-erase_self fd _;
}

-- A table's loss of one entry, and what leaves the tables alone, keep it so.
leave_backend-keeps :
    (fd : ℕ) (b : Bool) (o : Option ℕ) (w : World)
    → IsForgotten fd w
    → IsForgotten fd (leave_backend b o w)
leave_backend-keeps fd b none w h = h
leave_backend-keeps fd b (some r) w h =
    if-keeps (IsForgotten fd) (w.alive r && b) (λ e. rewrap h) (λ e. h)
  where
    rewrap :
        IsForgotten fd w
        → IsForgotten fd (record w { nodes = update r decrement_connections w.nodes })
    rewrap k = record {
      no_backend = k.no_backend;
      no_time = k.no_time;
      no_backpressure = k.no_backpressure;
      no_retries = k.no_retries;
      no_client = k.no_client;
    }

detach-keeps :
    (fd g : ℕ) (c : Connection) (w : World) → IsForgotten fd w → IsForgotten fd (detach g c w)
unfolding detach
detach-keeps fd g c w h =
    let k = leave_backend-keeps fd (is_established c.state) (find g w.backend_connections) w h in
    record {
      no_backend = find-erase-none g fd _ k.no_backend;
      no_time = k.no_time;
      no_backpressure = k.no_backpressure;
      no_retries = k.no_retries;
      no_client = k.no_client;
    }

pub detach_makes :
    (fd : ℕ) (c : Connection) (w : World) → find fd (detach fd c w).backend_connections ≡ none
unfolding detach
detach_makes fd c w = find-erase_self fd _

-- What changes no table that is looked at.
abbrev pub SameTables : World → World → Type 0
SameTables w w' =
    (w'.backend_connections ≡ w.backend_connections)
    × (w'.connection_times ≡ w.connection_times)
    × (w'.backpressure_times ≡ w.backpressure_times)
    × (w'.client_retry_counts ≡ w.client_retry_counts)
    × (w'.backend_to_client ≡ w.backend_to_client)

SameTables-keeps : (fd : ℕ) (w w' : World) → SameTables w w' → IsForgotten fd w → IsForgotten fd w'
SameTables-keeps fd w w' (b, t, p, r, c) h = record {
  no_backend = rw b h.no_backend;
  no_time = rw t h.no_time;
  no_backpressure = rw p h.no_backpressure;
  no_retries = rw r h.no_retries;
  no_client = rw c h.no_client;
}

unpeer_found_same : (p : ℕ) (o : Option Connection) (w : World) → SameTables w (unpeer_found p o w)
unpeer_found_same p none w = (refl, refl, refl, refl, refl)
unpeer_found_same p (some c) w = (refl, refl, refl, refl, refl)

pub unpeer_same : (o : Option ℕ) (w : World) → SameTables w (unpeer o w)
unpeer_same none w = (refl, refl, refl, refl, refl)
unpeer_same (some p) w = unpeer_found_same p (find p w.connections) w

pub discard_same : (g : ℕ) (c : Connection) (w : World) → SameTables w (discard g c w)
unfolding discard
discard_same g c w = unpeer_same c.peer w

pub take_peer_same :
    (pool : PoolRelease) (both : Bool) (g : ℕ) (c : Connection) (w : World)
    → SameTables w (take_peer pool both g c w)
unfolding take_peer pool_peer
take_peer_same none both g c w = discard_same g c w
take_peer_same (some accepts) false g c w = discard_same g c w
take_peer_same (some accepts) true g c w =
    if-keeps (SameTables w) (accepts c) (λ e. (refl, refl, refl, refl, refl))
      (λ e. discard_same g c w)

close_peer-keeps :
    (pool : PoolRelease) (client : Bool) (fd g : ℕ) (o : Option Connection) (w : World)
    → IsForgotten fd w
    → IsForgotten fd (close_peer pool client g o w)
unfolding close_peer
close_peer-keeps pool client fd g none w h = h
close_peer-keeps pool client fd g (some c) w h =
    if-keeps (IsForgotten fd) (is_closed c.state)
      (λ e. SameTables-keeps fd w _ (discard_same g c w) h)
      (λ e.
        SameTables-keeps fd (forget g (detach g c w)) _
          (take_peer_same pool (client && is_some (find g w.backend_connections)) g
            (record c { peer = none }) (note (del_fd g) (forget g (detach g c w))))
          (forget-keeps fd g (detach g c w) (detach-keeps fd g c w h)))

-- A client's account changes the log and the gauges alone.
log_request_same :
    (fd : ℕ) (o : Option RequestStatus) (w : World) → SameTables w (log_request fd o w)
unfolding log_request
log_request_same fd none w = (refl, refl, refl, refl, refl)
log_request_same fd (some r) w =
    if-keeps (SameTables w) (r.has_method && not r.response_complete)
      (λ e. (refl, refl, refl, refl, refl)) (λ e. (refl, refl, refl, refl, refl))

pub account_client_same : (b : Bool) (fd : ℕ) (w : World) → SameTables w (account_client b fd w)
account_client_same false fd w = (refl, refl, refl, refl, refl)
account_client_same true fd w = log_request_same fd (find fd w.requests) w

forget_client-keeps : (fd g : ℕ) (w : World) → IsForgotten fd w → IsForgotten fd (forget_client g w)
forget_client-keeps fd g w h = record {
  no_backend = h.no_backend;
  no_time = h.no_time;
  no_backpressure = h.no_backpressure;
  no_retries = h.no_retries;
  no_client = find-keep_if-none _ fd _ h.no_client;
}

visit_peer-keeps :
    (pool : PoolRelease) (b : Bool) (fd : ℕ) (o : Option ℕ) (w : World)
    → IsForgotten fd w
    → IsForgotten fd (visit_peer pool b o w)
visit_peer-keeps pool b fd none w h = h
visit_peer-keeps pool b fd (some g) w h = close_peer-keeps pool b fd g (find g w.connections) w h

settle-IsForgotten :
    (b : Bool) (fd : ℕ) (w : World)
    → find fd w.backend_connections ≡ none
    → IsForgotten fd (forget_client fd (forget fd (account_client b fd w)))
settle-IsForgotten b fd w h =
    let w' : World = account_client b fd w in
    let e : w'.backend_connections ≡ w.backend_connections = (account_client_same b fd w).0 in
    forget_client-keeps fd fd (forget fd w') (forget_makes fd w' (rw e h))

close_open-IsForgotten :
    (pool : PoolRelease) (fd : ℕ) (c : Connection) (w : World)
    → IsForgotten fd (close_open pool fd c w)
unfolding close_open
close_open-IsForgotten pool fd c w =
    let b = not (is_some (find fd w.backend_connections)) in
    let w1 : World = detach fd c w in
    let w2 : World = record w1 {
      connections = assign fd (record c { state = closed; peer = none }) w1.connections;
      metrics = add_bytes_out c.bytes_written (add_bytes_in c.bytes_read w1.metrics);
    } in
    let w3 : World = forget_client fd (forget fd (account_client b fd w2)) in
    let w4 : World = visit_peer pool b c.peer w3 in
    SameTables-keeps fd w4 _ (discard_same fd (record c { peer = none }) (note (del_fd fd) w4))
      (visit_peer-keeps pool b fd c.peer w3 (settle-IsForgotten b fd w2 (detach_makes fd c w)))

close_open_gone :
    (pool : PoolRelease) (fd : ℕ) (c : Connection) (w : World)
    → get_connection fd (close_open pool fd c w) ≡ none
unfolding close_open discard get_connection
close_open_gone pool fd c w = find-erase_self fd _

close_found-IsForgotten :
    (pool : PoolRelease) (fd : ℕ) (c : Connection) (w : World)
    → IsForgotten fd (close_found pool fd (some c) w)
unfolding close_found
close_found-IsForgotten pool fd c w =
    let w1 : World = record w { backend_connections = erase fd w.backend_connections } in
    if-keeps (IsForgotten fd) (is_closed c.state)
      (λ e.
        SameTables-keeps fd (forget fd w1) _ (discard_same fd c (forget fd w1))
          (forget_makes fd w1 (find-erase_self fd _)))
      (λ e. close_open-IsForgotten pool fd c w)

close_found_gone :
    (pool : PoolRelease) (fd : ℕ) (c : Connection) (w : World)
    → get_connection fd (close_found pool fd (some c) w) ≡ none
unfolding close_found discard get_connection
close_found_gone pool fd c w =
    if-keeps (λ (v : World). find fd v.connections ≡ none) (is_closed c.state)
      (λ e. find-erase_self fd _) (λ e. close_open_gone pool fd c w)

-- After a connection that the table holds is closed, whatever its state, whatever it was tied to and
-- whatever the pool does, none of the manager's six tables has an entry for its descriptor: the
-- connections, the backends, the times, the backpressure, the retries and the clients by backend.
pub close_connection_forgets :
    (pool : PoolRelease) (fd : ℕ) (c : Connection) (w : World)
    → get_connection fd w ≡ some c
    → IsForgotten fd (close_connection pool fd w)
      × (get_connection fd (close_connection pool fd w) ≡ none)
unfolding close_connection get_connection
close_connection_forgets pool fd c w h =
    rw h (close_found-IsForgotten pool fd c w, close_found_gone pool fd c w)
