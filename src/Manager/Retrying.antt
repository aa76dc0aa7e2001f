-- ===== src/Manager/Retrying.antt =====
-- close_backend_connection_only of src/core/connection_manager.cpp and the tables.
use loadbalancer.Base.{
  ℕ, ◌≡◌, refl, ap, ◌∙◌, Bool, ◌&&◌, Option, none, some, if-keeps, find, find-erase_self, ℕ_keys,
}
use loadbalancer.Net.Connection.{Connection, is_established}
use loadbalancer.World.{World, del_fd, note}
use loadbalancer.Manager.{
  unpeer, leave_backend, detach, discard, forget_backend, close_backend_found,
  close_backend_connection_only, get_connection,
}
use loadbalancer.Manager.Closing.{SameTables, unpeer_same, discard_same, detach_makes}

-- The tables no longer know the descriptor, and the retries are counted as before.
pub record IsDropped (fd : ℕ) (w w' : World) : Type 0 where
  pub gone : get_connection fd w' ≡ none
  pub no_backend : find fd w'.backend_connections ≡ none
  pub no_time : find fd w'.connection_times ≡ none
  pub no_backpressure : find fd w'.backpressure_times ≡ none
  pub no_client : find fd w'.backend_to_client ≡ none
  pub retries : w'.client_retry_counts ≡ w.client_retry_counts

leave_backend-retries :
    (b : Bool) (o : Option ℕ) (w : World)
    → (leave_backend b o w).client_retry_counts ≡ w.client_retry_counts
leave_backend-retries b none w = refl
leave_backend-retries b (some r) w =
    if-keeps (λ (v : World). v.client_retry_counts ≡ w.client_retry_counts) (w.alive r && b)
      (λ e. refl) (λ e. refl)

detach-retries :
    (fd : ℕ) (c : Connection) (w : World)
    → (detach fd c w).client_retry_counts ≡ w.client_retry_counts
unfolding detach
detach-retries fd c w =
    leave_backend-retries (is_established c.state) (find fd w.backend_connections) w

close_backend_found-IsDropped :
    (fd : ℕ) (c : Connection) (w : World) → IsDropped fd w (close_backend_found fd (some c) w)
unfolding close_backend_found forget_backend
close_backend_found-IsDropped fd c w =
    let w0 : World = unpeer c.peer w in
    let w1 : World = detach fd c w0 in
    let w2 : World = note (del_fd fd) (forget_backend fd w1) in
    let same : SameTables w2 (discard fd c w2) = discard_same fd c w2 in
    record {
      gone = unfold discard get_connection in find-erase_self fd _;
      no_backend = ap (find fd) same.0 ∙ detach_makes fd c w0;
      no_time = ap (find fd) same.1 ∙ find-erase_self fd _;
      no_backpressure = ap (find fd) same.2 ∙ find-erase_self fd _;
      no_client = ap (find fd) same.4 ∙ find-erase_self fd _;
      retries = same.3 ∙ (detach-retries fd c w0 ∙ (unpeer_same c.peer w).3);
    }

-- After a backend's connection that the table holds is closed alone, no table that is kept by the
-- backend's descriptor knows it, and every client's count of retries is as before.
pub close_backend_connection_only_drops :
    (fd : ℕ) (c : Connection) (w : World)
    → get_connection fd w ≡ some c
    → IsDropped fd w (close_backend_connection_only fd w)
unfolding close_backend_connection_only get_connection
close_backend_connection_only_drops fd c w h = rw h (close_backend_found-IsDropped fd c w)
