-- ===== src/Connector/State.antt =====
-- What BackendConnector (src/core/backend_connector.h) keeps and reads, and what the outside gives it.
use loadbalancer.Base.{ℕ, Bool, Option, Text, Map}
use loadbalancer.Backend.Pool.{BackendPool}
use loadbalancer.Net.Connection.{Connection}
use loadbalancer.Pooling.{Peeked}
use loadbalancer.Pooling.Manager.{ConnectionPoolManager}
use loadbalancer.Session.{Sessions}
use loadbalancer.World.{World}

pub record BackendInfo : Type 0 where
  pub host : Text
  pub port : ℕ
  pub pooled : Bool

-- `accounts` says whether there is a memory budget; `ticks` is how many of the clock make a second.
pub record Settings : Type 0 where
  pub max_connections_per_backend : ℕ
  pub sticky_sessions_enabled : Bool
  pub sticky_sessions_ttl_seconds : ℕ
  pub ticks : ℕ
  pub accounts : Bool

-- The tables of the load balancer with the objects that the connector shares: the backend pool, the
-- sessions, the connection pools where they are enabled, and the counters for each backend.
pub record Balancer : Type 0 where
  pub world : World
  pub pool : BackendPool
  pub sessions : Sessions
  pub session_keys : Map ℕ Text
  pub pools : Option ConnectionPoolManager
  pub backend_infos : Map ℕ BackendInfo
  pub backend_routed : Map Text ℕ
  pub backend_failures : Map Text ℕ

-- `::connect`: done at once, on its way, or an error.
pub data Dial : Type 0 where
  dialled in_progress refused : Dial

-- What the clock, the sockets and the resolver give to one call; `socket` is `none` for -1.
pub record Attempt : Type 0 where
  pub now : ℕ
  pub peek : ℕ → Peeked
  pub made : Option Connection
  pub socket : Option ℕ
  pub resolved : Bool
  pub dialling : Dial
