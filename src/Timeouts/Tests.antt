-- ===== src/Timeouts/Tests.antt =====
-- Tracking a descriptor twice, and a connection that stalls.
use loadbalancer.Base.{◌≡◌, refl, true, false, none, some, Memᴰ, arith, [], ◌∷◌, find, ℕ_keys}
use loadbalancer.Backend.Node.{new_node}
use loadbalancer.Net.Connection.{new_connection, is_closed}
use loadbalancer.Manager.Gone.{Fewer}
use loadbalancer.World.{World}
use loadbalancer.World.Gauges.{new_metrics}
use loadbalancer.Manager.Backpressure.{Calmer}
use loadbalancer.Timeouts.{
  Times, start_tracking, stalled, is_stalled, is_open, check_backpressure_timeouts,
}
use loadbalancer.Timeouts.Sweeps.{IsUntracked, check_backpressure_timeouts_closes}

abbrev times : Times
times = (7, 100) ∷ []

again_run : start_tracking 150 7 times ≡ (times, false)
unfolding start_tracking find
again_run = refl

abbrev stuck : World
stuck = record {
  connections = (7, new_connection 7) ∷ [];
  backend_connections = [];
  connection_times = (7, 90) ∷ [];
  backpressure_times = times;
  client_retry_counts = [];
  backend_to_client = [];
  requests = [];
  nodes = λ r. new_node [] 80 1;
  alive = λ r. true;
  budget = record { used_bytes = 0; limit_bytes = 0 };
  metrics = new_metrics;
  pooled = [];
  outside = [];
}

stalled_run : stalled 150 50 stuck ≡ 7 ∷ []
unfolding stalled is_stalled is_open find new_connection
stalled_run = refl

stuck_client : find 7 stuck.connections ≡ some (new_connection 7)
unfolding find
stuck_client = refl

stuck_open : is_closed (new_connection 7).state ≡ false
unfolding new_connection
stuck_open = refl

check_backpressure_timeouts_closes_example :
    let y = check_backpressure_timeouts none 150 50 stuck in
    (find 7 y.connections ≡ none) × IsUntracked y 7 × Calmer stuck y × Fewer stuck y
check_backpressure_timeouts_closes_example =
    check_backpressure_timeouts_closes none 150 50 7 100 (new_connection 7) stuck (omega arith)
      (Memᴰ.head refl) (omega arith) stuck_client stuck_open
