-- ===== src/Reload/Tests.antt =====
-- A reload of three backends, one of which the new configuration still lists.
use loadbalancer.Base.{ℕ, zero, suc, ◌≡◌, refl, Option, none, some, List, [], ◌∷◌, All}
use loadbalancer.Backend.Node.{Nodes, set_state, update, new_node, increment_connections}
use loadbalancer.Backend.Pool.{round_robin, find_in, find_backend, remove_backend}
use loadbalancer.Backend.Pool
use loadbalancer.Health.{HealthChecker, new_checker}
use loadbalancer.Health
use loadbalancer.Reload.{
  BackendConfig, Fleet, drain_one, drain_missing, watch, unwatch, add_missing, add_backend,
  restore_found, restore_all, remove_drained, cleanup_loop, cleanup_drained_backends,
  apply_backends,
}
use loadbalancer.Reload.Settled.{Settled, apply_backends_lem}

-- The second backend has a connection open.
abbrev nodes : Nodes
nodes zero = new_node ((97 ∷ [])) 80 1
nodes (suc zero) = increment_connections (new_node ((98 ∷ [])) 80 1)
nodes (suc (suc r)) = new_node ((99 ∷ [])) 80 1

abbrev before : Fleet
before = record {
  nodes = nodes;
  next = 3;
  pool = record {
    backends = 0 ∷ 1 ∷ 2 ∷ [];
    algorithm = round_robin;
    round_robin_index = 0;
    weighted_counter = 0;
  };
  health_checker = some (record new_checker { backends = 0 ∷ 1 ∷ 2 ∷ [] });
}

abbrev configs : List BackendConfig
configs =
    record { host = 97 ∷ []; port = 80; weight = 1 }
    ∷ record { host = 100 ∷ []; port = 80; weight = 2 }
    ∷ []

left : (apply_backends configs before).pool.backends ≡ 0 ∷ 1 ∷ 3 ∷ []
unfolding find_in find_backend new_node drain_missing drain_one restore_all restore_found
    add_backend add_missing cleanup_drained_backends cleanup_loop remove_drained apply_backends
    update set_state increment_connections remove_backend Pool.add_backend watch unwatch
    Health.add_backend Health.remove_backend new_checker
left = refl

abbrev checked : Option HealthChecker → List ℕ
checked none = []
checked (some h) = h.backends

watched : checked (apply_backends configs before).health_checker ≡ 0 ∷ 1 ∷ 3 ∷ []
unfolding find_in find_backend new_node drain_missing drain_one restore_all restore_found
    add_backend add_missing cleanup_drained_backends cleanup_loop remove_drained apply_backends
    update set_state increment_connections remove_backend Pool.add_backend watch unwatch
    Health.add_backend Health.remove_backend new_checker
watched = refl

apply_backends_lem_example :
    let y = apply_backends configs before in All (λ r. Settled configs (y.nodes r)) y.pool.backends
apply_backends_lem_example = apply_backends_lem configs before
