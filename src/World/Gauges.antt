-- ===== src/World/Gauges.antt =====
-- The gauges and counters of src/metrics/metrics.cpp that the core moves, each a uint64_t.
use loadbalancer.Base.{ℕ, ◌+◌, ◌-◌, ltb, u64, u64_mod, if◌then◌else◌}

pub record Metrics : Type 0 where
  pub connections_total : ℕ
  pub connections_active : ℕ
  pub backend_routes_failed : ℕ
  pub backpressure_events : ℕ
  pub backpressure_timeouts : ℕ
  pub backpressure_active : ℕ
  pub request_timeouts : ℕ
  pub overload_drops : ℕ
  pub rate_limit_drops : ℕ
  pub queue_drops : ℕ
  pub memory_budget_drops : ℕ
  pub bytes_in : ℕ
  pub bytes_out : ℕ

abbrev pub new_metrics : Metrics
new_metrics = record {
  connections_total = 0;
  connections_active = 0;
  backend_routes_failed = 0;
  backpressure_events = 0;
  backpressure_timeouts = 0;
  backpressure_active = 0;
  request_timeouts = 0;
  overload_drops = 0;
  rate_limit_drops = 0;
  queue_drops = 0;
  memory_budget_drops = 0;
  bytes_in = 0;
  bytes_out = 0;
}

abbrev pub increment_connections_total : Metrics → Metrics
increment_connections_total m = record m { connections_total = u64 (m.connections_total + 1) }

abbrev pub increment_connections_active : Metrics → Metrics
increment_connections_active m = record m { connections_active = u64 (m.connections_active + 1) }

-- There is no guard here: below 0 the gauge wraps.
abbrev pub decrement_connections_active : Metrics → Metrics
decrement_connections_active m = record m {
  connections_active = u64 (m.connections_active + u64_mod - 1);
}

abbrev pub increment_backend_routes_failed : Metrics → Metrics
increment_backend_routes_failed m = record m {
  backend_routes_failed = u64 (m.backend_routes_failed + 1);
}

abbrev pub increment_backpressure_events : Metrics → Metrics
increment_backpressure_events m = record m { backpressure_events = u64 (m.backpressure_events + 1) }

abbrev pub increment_backpressure_timeouts : Metrics → Metrics
increment_backpressure_timeouts m = record m {
  backpressure_timeouts = u64 (m.backpressure_timeouts + 1);
}

abbrev pub increment_backpressure_active : Metrics → Metrics
increment_backpressure_active m = record m { backpressure_active = u64 (m.backpressure_active + 1) }

abbrev pub decrement_backpressure_active : Metrics → Metrics
decrement_backpressure_active m =
    if ltb 0 m.backpressure_active
    then record m { backpressure_active = m.backpressure_active - 1 }
    else m

abbrev pub increment_request_timeouts : Metrics → Metrics
increment_request_timeouts m = record m { request_timeouts = u64 (m.request_timeouts + 1) }

abbrev pub increment_overload_drops : Metrics → Metrics
increment_overload_drops m = record m { overload_drops = u64 (m.overload_drops + 1) }

abbrev pub increment_rate_limit_drops : Metrics → Metrics
increment_rate_limit_drops m = record m { rate_limit_drops = u64 (m.rate_limit_drops + 1) }

abbrev pub increment_queue_drops : Metrics → Metrics
increment_queue_drops m = record m { queue_drops = u64 (m.queue_drops + 1) }

abbrev pub increment_memory_budget_drops : Metrics → Metrics
increment_memory_budget_drops m = record m { memory_budget_drops = u64 (m.memory_budget_drops + 1) }

abbrev pub add_bytes_in : ℕ → Metrics → Metrics
add_bytes_in n m = record m { bytes_in = u64 (m.bytes_in + n) }

abbrev pub add_bytes_out : ℕ → Metrics → Metrics
add_bytes_out n m = record m { bytes_out = u64 (m.bytes_out + n) }
