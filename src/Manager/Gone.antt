-- ===== src/Manager/Gone.antt =====
-- close_connection of src/core/connection_manager.cpp and the entries of other descriptors.
use loadbalancer.Base.{
  ℕ, ◌≡◌, ◌∙◌, refl, subst, nat_eq_iff, Bool, true, false, not, ◌&&◌, Option, none, some, if-keeps,
  is_some, find, assign, erase, find-assign, find-erase-none, nat_eq, Option-cases, inl, inr,
  ℕ_keys,
}
use loadbalancer.Net.Connection.{Connection, closed, is_closed, is_established}
use loadbalancer.World.{World, RequestStatus, del_fd, note}
use loadbalancer.World.Gauges.{add_bytes_in, add_bytes_out}
use loadbalancer.Manager.{
  PoolRelease, forget, leave_backend, detach, unpeer, discard, pool_peer, take_peer, close_peer,
  visit_peer, log_request, account_client, forget_client, close_open, close_found, close_connection,
}

-- What the one world has no connection for, the other has none for.
abbrev pub Fewer : World → World → Type 0
Fewer w w' = (fd : ℕ) → find fd w.connections ≡ none → find fd w'.connections ≡ none

find-assign-none :
    (p fd : ℕ) (c v : Connection) (w : World)
    → find p w.connections ≡ some c
    → find fd w.connections ≡ none
    → find fd (assign p v w.connections) ≡ none
find-assign-none p fd c v w h k =
    find-assign p fd v w.connections
    ∙ if-keeps (λ (o : Option Connection). o ≡ none) (nat_eq p fd)
        (λ e.
          let there : find fd w.connections ≡ some c =
            subst (λ q. find q w.connections ≡ some c) ((nat_eq_iff p fd).0 e) h in
          cc)
        (λ e. k)

leave_backend_same :
    (b : Bool) (o : Option ℕ) (w : World) → (leave_backend b o w).connections ≡ w.connections
leave_backend_same b none w = refl
leave_backend_same b (some r) w =
    if-keeps (λ (v : World). v.connections ≡ w.connections) (w.alive r && b) (λ e. refl) (λ e. refl)

detach_same : (g : ℕ) (c : Connection) (w : World) → (detach g c w).connections ≡ w.connections
unfolding detach
detach_same g c w = leave_backend_same (is_established c.state) (find g w.backend_connections) w

forget_same : (g : ℕ) (w : World) → (forget g w).connections ≡ w.connections
unfolding forget
forget_same g w = refl

log_request_kept :
    (fd : ℕ) (o : Option RequestStatus) (w : World)
    → (log_request fd o w).connections ≡ w.connections
unfolding log_request
log_request_kept fd none w = refl
log_request_kept fd (some r) w =
    if-keeps (λ (v : World). v.connections ≡ w.connections)
      (r.has_method && not r.response_complete) (λ e. refl) (λ e. refl)

account_client_kept :
    (b : Bool) (fd : ℕ) (w : World) → (account_client b fd w).connections ≡ w.connections
account_client_kept false fd w = refl
account_client_kept true fd w = log_request_kept fd (find fd w.requests) w

unpeer-Fewer : (o : Option ℕ) (w : World) → Fewer w (unpeer o w)
unpeer-Fewer none w fd h = h
unpeer-Fewer (some p) w fd h = elim (Option-cases (find p w.connections)) [
  | inl e ↦ rw e h
  | inr (c, e) ↦ rw e (find-assign-none p fd c (record c { peer = none }) w e h)
]

discard-Fewer : (g : ℕ) (c : Connection) (w : World) → Fewer w (discard g c w)
unfolding discard
discard-Fewer g c w fd h = find-erase-none g fd _ (unpeer-Fewer c.peer w fd h)

take_peer-Fewer :
    (pool : PoolRelease) (both : Bool) (g : ℕ) (c : Connection) (w : World)
    → Fewer w (take_peer pool both g c w)
unfolding take_peer pool_peer
take_peer-Fewer none both g c w = discard-Fewer g c w
take_peer-Fewer (some accepts) false g c w = discard-Fewer g c w
take_peer-Fewer (some accepts) true g c w =
    if-keeps (Fewer w) (accepts c) (λ e fd h. find-erase-none g fd _ h) (λ e. discard-Fewer g c w)

close_peer-Fewer :
    (pool : PoolRelease) (client : Bool) (g : ℕ) (o : Option Connection) (w : World)
    → Fewer w (close_peer pool client g o w)
unfolding close_peer
close_peer-Fewer pool client g none w = λ fd h. h
close_peer-Fewer pool client g (some c) w =
    let w2 : World = note (del_fd g) (forget g (detach g c w)) in
    let both = client && is_some (find g w.backend_connections) in
    if-keeps (Fewer w) (is_closed c.state) (λ e. discard-Fewer g c w)
      (λ e fd h.
        take_peer-Fewer pool both g (record c { peer = none }) w2 fd
          (rw (forget_same g (detach g c w), detach_same g c w) h))

visit_peer-Fewer :
    (pool : PoolRelease) (client : Bool) (o : Option ℕ) (w : World)
    → Fewer w (visit_peer pool client o w)
visit_peer-Fewer pool client none w = λ fd h. h
visit_peer-Fewer pool client (some g) w = close_peer-Fewer pool client g (find g w.connections) w

close_open-Fewer :
    (pool : PoolRelease) (g : ℕ) (c : Connection) (w : World)
    → find g w.connections ≡ some c
    → Fewer w (close_open pool g c w)
unfolding close_open
close_open-Fewer pool g c w found fd h =
    let b = not (is_some (find g w.backend_connections)) in
    let w1 : World = detach g c w in
    let c' : Connection = record c { state = closed; peer = none } in
    let w2 : World = record w1 {
      connections = assign g c' w1.connections;
      metrics = add_bytes_out c.bytes_written (add_bytes_in c.bytes_read w1.metrics);
    } in
    let w3 : World = forget_client g (forget g (account_client b g w2)) in
    let w4 : World = visit_peer pool b c.peer w3 in
    let at2 : find fd w2.connections ≡ none =
      find-assign-none g fd c c' w1 (rw (detach_same g c w) found) (rw (detach_same g c w) h) in
    let at3 : find fd w3.connections ≡ none =
      rw (forget_same g (account_client b g w2), account_client_kept b g w2) at2 in
    discard-Fewer g (record c { peer = none }) (note (del_fd g) w4) fd
      (visit_peer-Fewer pool b c.peer w3 fd at3)

close_found-Fewer :
    (pool : PoolRelease) (g : ℕ) (o : Option Connection) (w : World)
    → find g w.connections ≡ o
    → Fewer w (close_found pool g o w)
unfolding close_found
close_found-Fewer pool g none w found = λ fd h. h
close_found-Fewer pool g (some c) w found =
    let w1 : World = record w { backend_connections = erase g w.backend_connections } in
    if-keeps (Fewer w) (is_closed c.state)
      (λ e fd h. discard-Fewer g c (forget g w1) fd (rw (forget_same g w1) h))
      (λ e. close_open-Fewer pool g c w found)

pub close_connection-Fewer :
    (pool : PoolRelease) (g : ℕ) (w : World) → Fewer w (close_connection pool g w)
unfolding close_connection
close_connection-Fewer pool g w = close_found-Fewer pool g (find g w.connections) w refl
