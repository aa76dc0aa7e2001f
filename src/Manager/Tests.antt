-- ===== src/Manager/Tests.antt =====
-- A client and its backend, and what is left when the client is closed.
use loadbalancer.Base.{
  ◌≡◌, refl, true, false, none, some, [], ◌∷◌, find, assign, erase, length, ℕ_keys,
}
use loadbalancer.Backend.Node.{
  Nodes, update, decrement_connections, new_node, increment_connections,
}
use loadbalancer.Net.Connection.{Connection, new_connection}
use loadbalancer.World.{World, del_fd, access_log}
use loadbalancer.World.Gauges.{Metrics, new_metrics}
use loadbalancer.Manager.{
  close_connection, close_found, close_open, get_connection, detach, discard, forget, close_peer,
  take_peer, pool_peer, log_request,
}
use loadbalancer.Manager.Closing.{IsForgotten, close_connection_forgets}

abbrev busy : Metrics
busy = record new_metrics { connections_active = 1; backpressure_active = 1 }

abbrev client : Connection
client = record (new_connection 7) { peer = some 8 }

abbrev server : Connection
server = record (new_connection 8) { peer = some 7 }

abbrev one_node : Nodes
one_node r = increment_connections (new_node [] 80 1)

-- Descriptor 7 is a client in backpressure, 8 its connection to backend 0.
abbrev pair : World
pair = record {
  connections = (7, client) ∷ (8, server) ∷ [];
  backend_connections = (8, 0) ∷ [];
  connection_times = (7, 100) ∷ (8, 101) ∷ [];
  backpressure_times = (7, 103) ∷ [];
  client_retry_counts = (7, 1) ∷ [];
  backend_to_client = (8, 7) ∷ [];
  requests = (7, record { has_method = true; response_complete = false }) ∷ [];
  nodes = one_node;
  alive = λ r. true;
  budget = record { used_bytes = 0; limit_bytes = 1000 };
  metrics = busy;
  pooled = [];
  outside = [];
}

closed_pair :
    (close_connection (some (λ c. true)) 7 pair).outside ≡ access_log 7 ∷ del_fd 8 ∷ del_fd 7 ∷ []
unfolding close_connection close_found close_open detach discard forget close_peer log_request
    take_peer pool_peer new_connection find assign erase
closed_pair = refl

closed_pair_pooled : length (close_connection (some (λ c. true)) 7 pair).pooled ≡ 1
unfolding close_connection close_found close_open detach discard forget close_peer log_request
    take_peer pool_peer new_connection find assign erase
closed_pair_pooled = refl

closed_pair_node : ((close_connection none 7 pair).nodes 0).active_connections ≡ 0
unfolding close_connection close_found close_open detach discard forget close_peer log_request
    take_peer pool_peer new_connection find assign erase increment_connections new_node update
    decrement_connections
closed_pair_node = refl

held_client : get_connection 7 pair ≡ some client
unfolding get_connection find
held_client = refl

close_connection_forgets_example :
    IsForgotten 7 (close_connection none 7 pair)
    × (get_connection 7 (close_connection none 7 pair) ≡ none)
close_connection_forgets_example = close_connection_forgets none 7 client pair held_client
