-- ===== src/Timeouts/Retries.antt =====
-- RetryHandler::retry of src/core/retry_handler.cpp, on both branches.
use loadbalancer.Base.{ℕ, ◌+◌, ◌<◌, ◌≡◌, ◌⊎◌, inl, inr, refl, arith, leb, Bool-cases}
use loadbalancer.Memory.{MemoryBudget}
use loadbalancer.Net.Connection.{Connection, close}
use loadbalancer.World.Gauges.{Metrics, increment_backend_routes_failed}
use loadbalancer.Timeouts.{max_retry_attempts, gave_up, connects, closed_client, retry}

pub retry_cases :
    (c : Connection) (n : ℕ) (b : MemoryBudget) (m : Metrics)
    → ((n < max_retry_attempts) × (retry c n b m ≡ connects c (n + 1)))
      ⊎ (retry c n b m ≡ gave_up (close c b).0 (close c b).1 (increment_backend_routes_failed m))
unfolding retry closed_client
retry_cases c n b m = elim (Bool-cases (leb max_retry_attempts n)) [
  | inl e ↦ inr (rw e refl)
  | inr e ↦ inl (ground (arith, e), rw e refl)
]
