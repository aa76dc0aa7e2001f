-- ===== src/Reload.antt =====
-- The backends in a reload of the configuration: apply_config, cleanup_drained_backends and
-- add_backend of src/core/load_balancer.cpp.
pub mod Restored
pub mod Settled
mod Tests
use loadbalancer.Base.{
  ℕ, ◌+◌, Bool, true, false, not, ◌&&◌, Option, none, some, List, [], ◌∷◌, Text, text_keys, ◌==◌,
  nat_eq, any_of, if◌then◌else◌,
}
use loadbalancer.Backend.Node.{
  BackendNode, Nodes, BackendState, healthy, draining, is_draining, set_state, update, new_node,
}
use loadbalancer.Backend.Pool.{BackendPool, find_backend, remove_backend}
use loadbalancer.Backend.Pool
use loadbalancer.Health.{HealthChecker}
use loadbalancer.Health

pub record BackendConfig : Type 0 where
  pub host : Text
  pub port : ℕ
  pub weight : ℕ

-- The pool and the health checker, where there is one, with the nodes that they share; `next` is the
-- number of the next node that is made.
pub record Fleet : Type 0 where
  pub nodes : Nodes
  pub next : ℕ
  pub pool : BackendPool
  pub health_checker : Option HealthChecker

-- Whether the address is in `new_backend_keys`.
abbrev pub is_listed : List BackendConfig → BackendNode → Bool
is_listed configs n = any_of (λ c. n.host == c.host && nat_eq n.port c.port) configs

unfoldable pub drain_one : List BackendConfig → ℕ → Nodes → Nodes
drain_one configs r nodes =
    if is_listed configs (nodes r)
    then nodes
    else if is_draining (nodes r).state
    then nodes
    else update r (set_state draining) nodes

unfoldable pub drain_missing : List BackendConfig → List ℕ → Nodes → Nodes
unfolding drain_one
drain_missing configs [] nodes = nodes
drain_missing configs (r ∷ rs) nodes = drain_missing configs rs (drain_one configs r nodes)

unfoldable pub watch : ℕ → Option HealthChecker → Option HealthChecker
watch r none = none
watch r (some h) = some (Health.add_backend r h)

unfoldable pub unwatch : ℕ → Option HealthChecker → Option HealthChecker
unwatch r none = none
unwatch r (some h) = some (Health.remove_backend r h)

unfoldable pub add_missing : BackendConfig → Option ℕ → Fleet → Fleet
unfolding watch
add_missing c (some r) x = x
add_missing c none x = record {
  nodes = update x.next (λ n. new_node c.host c.port c.weight) x.nodes;
  next = x.next + 1;
  pool = Pool.add_backend x.next x.pool;
  health_checker = watch x.next x.health_checker;
}

unfoldable pub add_backend : BackendConfig → Fleet → Fleet
unfolding add_missing
add_backend c x = add_missing c (find_backend x.nodes c.host c.port x.pool) x

unfoldable pub restore_found : BackendConfig → Option ℕ → Fleet → Fleet
unfolding add_backend
restore_found c none x = add_backend c x
restore_found c (some r) x =
    if is_draining (x.nodes r).state
    then record x { nodes = update r (set_state healthy) x.nodes }
    else x

unfoldable pub restore_all : List BackendConfig → Fleet → Fleet
unfolding restore_found
restore_all [] x = x
restore_all (c ∷ cs) x =
    restore_all cs (restore_found c (find_backend x.nodes c.host c.port x.pool) x)

abbrev pub is_drained : BackendNode → Bool
is_drained n = is_draining n.state && nat_eq n.active_connections 0

unfoldable pub remove_drained : ℕ → Fleet → Fleet
unfolding unwatch
remove_drained r x =
    if is_drained (x.nodes r)
    then record x {
      pool = remove_backend x.nodes (x.nodes r).host (x.nodes r).port x.pool;
      health_checker = unwatch r x.health_checker;
    }
    else x

unfoldable pub cleanup_loop : List ℕ → Fleet → Fleet
unfolding remove_drained
cleanup_loop [] x = x
cleanup_loop (r ∷ rs) x = cleanup_loop rs (remove_drained r x)

unfoldable pub cleanup_drained_backends : Fleet → Fleet
unfolding cleanup_loop
cleanup_drained_backends x = cleanup_loop x.pool.backends x

-- The part of `apply_config` that follows the list of backends.
unfoldable pub apply_backends : List BackendConfig → Fleet → Fleet
unfolding drain_missing restore_all cleanup_drained_backends
apply_backends configs x =
    cleanup_drained_backends
      (restore_all configs (record x { nodes = drain_missing configs x.pool.backends x.nodes }))
