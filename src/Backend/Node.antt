-- ===== src/Backend/Node.antt =====
-- src/core/backend_node.h and backend_node.cpp: the counters are uint32_t, read and written atomically.
use loadbalancer.Base.{ℕ, ◌+◌, ◌-◌, Bool, true, false, Text, nat_eq, ltb, u32, if◌then◌else◌}

pub data BackendState : Type 0 where
  healthy unhealthy draining : BackendState

pub record BackendNode : Type 0 where
  pub host : Text
  pub port : ℕ
  pub weight : ℕ
  pub state : BackendState
  pub active_connections : ℕ
  pub failure_count : ℕ

abbrev pub is_healthy : BackendState → Bool
is_healthy healthy = true
is_healthy unhealthy = false
is_healthy draining = false

abbrev pub is_unhealthy : BackendState → Bool
is_unhealthy healthy = false
is_unhealthy unhealthy = true
is_unhealthy draining = false

abbrev pub is_draining : BackendState → Bool
is_draining healthy = false
is_draining unhealthy = false
is_draining draining = true

-- The constructor: a weight of 0 becomes 1.
unfoldable pub new_node : Text → ℕ → ℕ → BackendNode
new_node host port weight = record {
  host = host;
  port = port;
  weight = if ltb 0 weight then weight else 1;
  state = healthy;
  active_connections = 0;
  failure_count = 0;
}

unfoldable pub set_state : BackendState → BackendNode → BackendNode
set_state s b = record b { state = s }

unfoldable pub increment_connections : BackendNode → BackendNode
increment_connections b = record b { active_connections = u32 (b.active_connections + 1) }

-- The guard keeps the counter from passing below 0.
unfoldable pub decrement_connections : BackendNode → BackendNode
decrement_connections b =
    if ltb 0 b.active_connections
    then record b { active_connections = b.active_connections - 1 }
    else b

unfoldable pub increment_failures : BackendNode → BackendNode
increment_failures b = record b { failure_count = u32 (b.failure_count + 1) }

unfoldable pub reset_failures : BackendNode → BackendNode
reset_failures b = record b { failure_count = 0 }

-- The nodes that the shared pointers, numbered, point to.
abbrev pub Nodes : Type 0
Nodes = ℕ → BackendNode

-- A method called through the pointer `r`.
unfoldable pub update : ℕ → (BackendNode → BackendNode) → Nodes → Nodes
update r f nodes q = if nat_eq r q then f (nodes r) else nodes q
