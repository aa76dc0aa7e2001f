-- ===== src/Events/Wiring.antt =====
-- The callbacks of src/core/load_balancer.cpp that the event handlers call about backpressure.
use loadbalancer.Base.{ℕ, Bool, true, false, if◌then◌else◌, ℕ_keys}
use loadbalancer.World.{World}
use loadbalancer.World.Gauges.{
  increment_backpressure_timeouts, increment_backpressure_events, increment_backpressure_active,
}
use loadbalancer.Manager.{PoolRelease, close_connection}
use loadbalancer.Timeouts.{check_timeout, start_tracking}
use loadbalancer.Connector.State.{Balancer}

-- A connection under backpressure for too long is closed.
unfoldable pub check_backpressure : PoolRelease → ℕ → ℕ → ℕ → Balancer → Balancer
check_backpressure pool now timeout fd b =
    if check_timeout now timeout fd b.world.backpressure_times
    then record b {
      world =
          close_connection pool fd
            (record (b.world) { metrics = increment_backpressure_timeouts b.world.metrics });
    }
    else b

track : Bool → World → World
track true w = record w {
  metrics = increment_backpressure_active (increment_backpressure_events w.metrics);
}
track false w = w

pub start_backpressure : ℕ → ℕ → Balancer → Balancer
start_backpressure now fd b =
    let (times, started) = start_tracking now fd b.world.backpressure_times in
    record b { world = track started (record (b.world) { backpressure_times = times }) }
