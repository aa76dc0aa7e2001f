-- ===== src/World.antt =====
-- The state that src/core/load_balancer.h shares with its connection manager, event handlers and
-- backend connector: the tables by descriptor, the backends, the budget and the gauges.
pub mod Gauges
use loadbalancer.Base.{
  ℕ, Bool, Option, none, some, List, [], ◌∷◌, ◌++◌, Map, find, assign, erase, ℕ_keys,
}
use loadbalancer.Backend.Node.{BackendNode, Nodes, update}
use loadbalancer.Memory.{MemoryBudget}
use loadbalancer.Net.Connection.{Connection}
use Gauges.{Metrics}

-- What the HTTP forwarder keeps of a client's request, as far as closing reads it.
pub record RequestStatus : Type 0 where
  pub has_method : Bool
  pub response_complete : Bool

-- What is done outside the tables, in order: a descriptor leaves the reactor or enters it, and an
-- entry goes to the access log.
pub data Outside : Type 0 where
  del_fd add_fd access_log : ℕ → Outside

-- A connection's `peer` is the descriptor by which `connections` holds the other one. `alive` says
-- which backends a `std::weak_ptr` can still lock.
pub record World : Type 0 where
  pub connections : Map ℕ Connection
  pub backend_connections : Map ℕ ℕ
  pub connection_times : Map ℕ ℕ
  pub backpressure_times : Map ℕ ℕ
  pub client_retry_counts : Map ℕ ℕ
  pub backend_to_client : Map ℕ ℕ
  pub requests : Map ℕ RequestStatus
  pub nodes : Nodes
  pub alive : ℕ → Bool
  pub budget : MemoryBudget
  pub metrics : Metrics
  pub pooled : List Connection
  pub outside : List Outside

abbrev pub note : Outside → World → World
note e w = record w { outside = w.outside ++ e ∷ [] }
