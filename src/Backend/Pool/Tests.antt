-- ===== src/Backend/Pool/Tests.antt =====
-- Backends and pools at concrete values.
use loadbalancer.Base.{
  ℕ, zero, suc, ◌≡◌, refl, ◌↔◌, ◌⊎◌, inl, none, some, [], ◌∷◌, Memᴰ, arith, bytes, OnSome,
}
use loadbalancer.Backend.Node.{Nodes, healthy, unhealthy}
use loadbalancer.Backend.Exact.{exact, cross}
use loadbalancer.Backend.Pool.{
  BackendPool, RoutingAlgorithm, round_robin, least_connections, find_in, find_backend,
  total_weight, pick_weighted, select_weighted_round_robin, if_usable, sticky_backend, load,
  min_element, choose, select_backend,
}
use loadbalancer.Backend.Pool.Sticky.{named_backend, select_backend_sticky}
use loadbalancer.Backend.Pool.Selection.{Serves, select_backend-Serves, select_backend-none}
use loadbalancer.Backend.Pool.Fairness.{turns, count, turns_fair}
use loadbalancer.Backend.Pool.LeastLoaded.{IsLight, NoHeavier, select_backend_least}

-- Backend 0 has weight 3, backend 1 weight 1 and is busy, and backend 2 is unhealthy.
abbrev nodes : Nodes
nodes zero = record {
  host = bytes "a";
  port = 80;
  weight = 3;
  state = healthy;
  active_connections = 2;
  failure_count = 0;
}
nodes (suc zero) = record {
  host = bytes "b";
  port = 81;
  weight = 1;
  state = healthy;
  active_connections = 4;
  failure_count = 0;
}
nodes (suc (suc r)) = record {
  host = bytes "c";
  port = 82;
  weight = 2;
  state = unhealthy;
  active_connections = 0;
  failure_count = 5;
}

abbrev pool : RoutingAlgorithm → BackendPool
pool a = record {
  backends = 0 ∷ 1 ∷ 2 ∷ [];
  algorithm = a;
  round_robin_index = 0;
  weighted_counter = 6;
}

turns_run : turns exact nodes 0 4 (pool round_robin) ≡ some 0 ∷ some 1 ∷ some 0 ∷ some 0 ∷ []
unfolding select_backend sticky_backend choose select_weighted_round_robin total_weight
    pick_weighted
turns_run = refl

sticky_run : (select_backend exact nodes 0 (bytes "b") 81 (pool round_robin)).1 ≡ some 1
unfolding select_backend sticky_backend find_backend find_in if_usable
sticky_run = refl

least_run : (select_backend exact nodes 0 [] 0 (pool least_connections)).1 ≡ some 0
unfolding select_backend sticky_backend choose min_element load cross
least_run = refl

select_backend-Serves_example :
    OnSome
      (Serves nodes 4 (pool round_robin))
      (select_backend exact nodes 4 (bytes "b") 81 (pool round_robin)).1
select_backend-Serves_example =
    select_backend-Serves exact nodes 4 (bytes "b") 81 (pool round_robin)

select_backend-none_example :
    ((select_backend exact nodes 1 [] 0 (pool round_robin)).1 ≡ none)
    ↔ ((r : ℕ) → ¬ Serves nodes 1 (pool round_robin) r)
select_backend-none_example = select_backend-none exact nodes 1 [] 0 (pool round_robin)

abbrev second_serves : Serves nodes 0 (pool round_robin) 1
second_serves = (Memᴰ.tail (Memᴰ.head refl), refl, inl refl)

select_backend_sticky_example :
    ((r : ℕ) × (named_backend nodes (bytes "b") 81 (pool round_robin) ≡ some r)
      × Serves nodes 0 (pool round_robin) r
      × (select_backend exact nodes 0 (bytes "b") 81 (pool round_robin)
          ≡ (pool round_robin, some r)))
    ⊎ (OnSome
          (λ r. ¬ Serves nodes 0 (pool round_robin) r)
          (named_backend nodes (bytes "b") 81 (pool round_robin))
        × (select_backend exact nodes 0 (bytes "b") 81 (pool round_robin)
            ≡ select_backend exact nodes 0 [] 0 (pool round_robin)))
select_backend_sticky_example =
    select_backend_sticky exact nodes 0 (pool round_robin) (bytes "b") 81

turns_fair_example : count 0 (turns exact nodes 0 4 (pool round_robin)) ≡ 3
turns_fair_example = turns_fair exact nodes 0 0 (pool round_robin) refl (omega arith)

abbrev lights : (r : ℕ) → IsLight nodes r
lights zero = record { connections = omega arith; weight = omega arith; positive = omega arith }
lights (suc zero) = record {
  connections = omega arith;
  weight = omega arith;
  positive = omega arith;
}
lights (suc (suc r)) = record {
  connections = omega arith;
  weight = omega arith;
  positive = omega arith;
}

select_backend_least_example : NoHeavier nodes 0 1
unfolding select_backend sticky_backend choose min_element load cross
select_backend_least_example =
    select_backend_least exact nodes 0 (pool least_connections) refl
      (lights 0, (lights 1, (lights 2, tt))) refl second_serves
