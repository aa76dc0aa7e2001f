-- ===== src/Backend/Pool.antt =====
-- src/core/backend_pool.h and backend_pool.cpp. `none` stands for `nullptr`.
pub mod Addresses
pub mod Selection
pub mod Sticky
pub mod Fairness
pub mod LeastLoaded
mod Tests
use loadbalancer.Base.{
  ℕ, ◌+◌, ◌%◌, Bool, not, ◌&&◌, ◌||◌, Option, none, some, List, [], ◌∷◌, ◌++◌, Text, text_eq, ltb,
  nat_eq, u32, if◌then◌else◌, keep_if, is_empty,
}
use loadbalancer.Backend.Node.{BackendNode, Nodes, is_healthy}
use loadbalancer.Backend.Float.{Float}

pub data RoutingAlgorithm : Type 0 where
  round_robin least_connections : RoutingAlgorithm

-- `round_robin_index_` is written by the constructor and read nowhere.
pub record BackendPool : Type 0 where
  pub backends : List ℕ
  pub algorithm : RoutingAlgorithm
  pub round_robin_index : ℕ
  pub weighted_counter : ℕ

unfoldable pub new_pool : RoutingAlgorithm → BackendPool
new_pool a = record { backends = []; algorithm = a; round_robin_index = 0; weighted_counter = 0 }

unfoldable pub add_backend : ℕ → BackendPool → BackendPool
add_backend r p = record p { backends = p.backends ++ r ∷ [] }

abbrev pub has_address : Nodes → Text → ℕ → ℕ → Bool
has_address nodes host port r = text_eq (nodes r).host host && nat_eq (nodes r).port port

unfoldable pub remove_backend : Nodes → Text → ℕ → BackendPool → BackendPool
remove_backend nodes host port p = record p {
  backends = keep_if (λ r. not (has_address nodes host port r)) p.backends;
}

unfoldable pub find_in : Nodes → Text → ℕ → List ℕ → Option ℕ
find_in nodes host port [] = none
find_in nodes host port (r ∷ rs) =
    if has_address nodes host port r then some r else find_in nodes host port rs

unfoldable pub find_backend : Nodes → Text → ℕ → BackendPool → Option ℕ
find_backend nodes host port p = find_in nodes host port p.backends

unfoldable pub set_algorithm : RoutingAlgorithm → BackendPool → BackendPool
set_algorithm a p = record p { algorithm = a }

-- `max_connections_per_backend == 0 || active_connections() < max_connections_per_backend`
abbrev pub has_room : ℕ → BackendNode → Bool
has_room max_connections b = nat_eq max_connections 0 || ltb b.active_connections max_connections

abbrev pub is_usable : Nodes → ℕ → ℕ → Bool
is_usable nodes max_connections r = is_healthy (nodes r).state && has_room max_connections (nodes r)

-- The loop that fills the vector `healthy`.
abbrev pub usable : Nodes → ℕ → BackendPool → List ℕ
usable nodes max_connections p = keep_if (is_usable nodes max_connections) p.backends

total_weight : Nodes → ℕ → List ℕ → ℕ
total_weight nodes acc [] = acc
total_weight nodes acc (r ∷ rs) = total_weight nodes (u32 (acc + (nodes r).weight)) rs

-- The second loop; `first` is `healthy[0]`.
pick_weighted : Nodes → ℕ → ℕ → ℕ → List ℕ → ℕ
pick_weighted nodes first target cumulative [] = first
pick_weighted nodes first target cumulative (r ∷ rs) =
    let sum = u32 (cumulative + (nodes r).weight) in
    if ltb target sum then r else pick_weighted nodes first target sum rs

-- The list is `first ∷ rest`, so that `healthy[0]` is there.
select_weighted_round_robin : Nodes → ℕ → List ℕ → BackendPool → BackendPool × ℕ
select_weighted_round_robin nodes first rest p =
    let total = total_weight nodes 0 (first ∷ rest) in
    if nat_eq total 0 then (p, first) else (
      record p { weighted_counter = u32 (p.weighted_counter + 1) },
      pick_weighted nodes first (p.weighted_counter % total) 0 (first ∷ rest),
    )

-- A session's backend serves only while it is usable.
if_usable : Nodes → ℕ → Option ℕ → Option ℕ
if_usable nodes limit none = none
if_usable nodes limit (some r) = if is_usable nodes limit r then some r else none

-- The early return for a session's backend.
sticky_backend : Nodes → ℕ → Text → ℕ → BackendPool → Option ℕ
sticky_backend nodes max_connections sticky_host sticky_port p =
    if not (is_empty sticky_host) && ltb 0 sticky_port
    then if_usable nodes max_connections (find_backend nodes sticky_host sticky_port p)
    else none

module _ (fl : Float) where
  open fl use {Double, of_u32, div, lt}

  load : Nodes → ℕ → Double
  load nodes r = div (of_u32 (nodes r).active_connections) (of_u32 (nodes r).weight)

  -- `std::min_element`: the first of the smallest.
  min_element : Nodes → ℕ → List ℕ → ℕ
  min_element nodes smallest [] = smallest
  min_element nodes smallest (r ∷ rs) =
      min_element nodes (if lt (load nodes r) (load nodes smallest) then r else smallest) rs

  choose : Nodes → RoutingAlgorithm → List ℕ → BackendPool → BackendPool × Option ℕ
  choose nodes a [] p = (p, none)
  choose nodes round_robin (first ∷ rest) p =
      let (q, r) = select_weighted_round_robin nodes first rest p in (q, some r)
  choose nodes least_connections (first ∷ rest) p = (p, some (min_element nodes first rest))

  pub select_backend : Nodes → ℕ → Text → ℕ → BackendPool → BackendPool × Option ℕ
  select_backend nodes max_connections sticky_host sticky_port p =
      if is_empty p.backends
      then (p, none)
      else elim (sticky_backend nodes max_connections sticky_host sticky_port p) [
        | some r ↦ (p, some r)
        | none ↦ choose nodes p.algorithm (usable nodes max_connections p) p
      ]
