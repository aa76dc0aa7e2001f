-- ===== src/Manager/Backpressure.antt =====
-- close_connection of src/core/connection_manager.cpp and the backpressure of other connections.
use loadbalancer.Base.{
  ℕ, ◌≡◌, Bool, not, ◌&&◌, Option, none, some, if-keeps, is_some, find, assign, erase,
  find-erase-none, ℕ_keys,
}
use loadbalancer.Net.Connection.{Connection, closed, is_closed, is_established}
use loadbalancer.World.{World, del_fd, note}
use loadbalancer.World.Gauges.{add_bytes_in, add_bytes_out}
use loadbalancer.Manager.{
  PoolRelease, forget, leave_backend, detach, discard, take_peer, close_peer, visit_peer,
  account_client, forget_client, close_open, close_found, close_connection,
}
use loadbalancer.Manager.Closing.{SameTables, discard_same, take_peer_same, account_client_same}

-- What is not under backpressure in the one world is not in the other.
abbrev pub Calmer : World → World → Type 0
Calmer w w' = (fd : ℕ) → find fd w.backpressure_times ≡ none → find fd w'.backpressure_times ≡ none

SameTables-Calmer : (w w' : World) → SameTables w w' → Calmer w w'
SameTables-Calmer w w' (b, t, p, r, c) fd h = rw p h

forget-Calmer : (g : ℕ) (w : World) → Calmer w (forget g w)
unfolding forget
forget-Calmer g w fd h = find-erase-none g fd _ h

leave_backend-Calmer : (b : Bool) (o : Option ℕ) (w : World) → Calmer w (leave_backend b o w)
leave_backend-Calmer b none w = λ fd h. h
leave_backend-Calmer b (some r) w = if-keeps (Calmer w) (w.alive r && b) (λ e fd h. h) (λ e fd h. h)

detach-Calmer : (g : ℕ) (c : Connection) (w : World) → Calmer w (detach g c w)
unfolding detach
detach-Calmer g c w = leave_backend-Calmer (is_established c.state) (find g w.backend_connections) w

close_peer-Calmer :
    (pool : PoolRelease) (client : Bool) (g : ℕ) (o : Option Connection) (w : World)
    → Calmer w (close_peer pool client g o w)
unfolding close_peer
close_peer-Calmer pool client g none w = λ fd h. h
close_peer-Calmer pool client g (some c) w =
    let w1 : World = detach g c w in
    let w2 : World = note (del_fd g) (forget g w1) in
    let both = client && is_some (find g w.backend_connections) in
    let c' : Connection = record c { peer = none } in
    if-keeps (Calmer w) (is_closed c.state)
      (λ e. SameTables-Calmer w (discard g c w) (discard_same g c w))
      (λ e fd h.
        SameTables-Calmer w2 (take_peer pool both g c' w2) (take_peer_same pool both g c' w2) fd
          (forget-Calmer g w1 fd (detach-Calmer g c w fd h)))

visit_peer-Calmer :
    (pool : PoolRelease) (client : Bool) (o : Option ℕ) (w : World)
    → Calmer w (visit_peer pool client o w)
visit_peer-Calmer pool client none w = λ fd h. h
visit_peer-Calmer pool client (some g) w = close_peer-Calmer pool client g (find g w.connections) w

close_open-Calmer :
    (pool : PoolRelease) (g : ℕ) (c : Connection) (w : World) → Calmer w (close_open pool g c w)
unfolding close_open
close_open-Calmer pool g c w fd h =
    let b = not (is_some (find g w.backend_connections)) in
    let w1 : World = detach g c w in
    let w2 : World = record w1 {
      connections = assign g (record c { state = closed; peer = none }) w1.connections;
      metrics = add_bytes_out c.bytes_written (add_bytes_in c.bytes_read w1.metrics);
    } in
    let w3 : World = account_client b g w2 in
    let c' : Connection = record c { peer = none } in
    let w4 : World = visit_peer pool b c.peer (forget_client g (forget g w3)) in
    SameTables-Calmer w4 (discard g c' (note (del_fd g) w4))
      (discard_same g c' (note (del_fd g) w4)) fd
      (visit_peer-Calmer pool b c.peer (forget_client g (forget g w3)) fd (
        forget-Calmer g w3 fd
          (SameTables-Calmer w2 w3 (account_client_same b g w2) fd (detach-Calmer g c w fd h))))

close_found-Calmer :
    (pool : PoolRelease) (g : ℕ) (o : Option Connection) (w : World)
    → Calmer w (close_found pool g o w)
unfolding close_found
close_found-Calmer pool g none w = λ fd h. h
close_found-Calmer pool g (some c) w =
    let w1 : World = record w { backend_connections = erase g w.backend_connections } in
    if-keeps (Calmer w) (is_closed c.state)
      (λ e fd h.
        SameTables-Calmer (forget g w1) (discard g c (forget g w1)) (discard_same g c (forget g w1))
          fd (forget-Calmer g w1 fd h))
      (λ e. close_open-Calmer pool g c w)

pub close_connection-Calmer :
    (pool : PoolRelease) (g : ℕ) (w : World) → Calmer w (close_connection pool g w)
unfolding close_connection
close_connection-Calmer pool g w = close_found-Calmer pool g (find g w.connections) w
