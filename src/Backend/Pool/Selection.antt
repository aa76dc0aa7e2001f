-- ===== src/Backend/Pool/Selection.antt =====
-- select_backend of src/core/backend_pool.cpp, for both algorithms.
use loadbalancer.Base.{
  ℕ, ◌+◌, ◌%◌, ◌<◌, ◌≡◌, refl, ◌↔◌, ◌≢◌, ◌⊎◌, inl, inr, true, not, ◌&&◌, Option, none, some, List,
  [], ◌∷◌, Memᴰ, arith, Text, ltb, nat_eq, u32, Bool-cases, Option-cases, All, OnSome, OnSome-get,
  All-Memᴰ, All-map, keep_if-All-both, keep_if-mem, Memᴰ-ne-nil, Memᴰ-is_empty, is_empty,
}
use loadbalancer.Backend.Node.{Nodes, healthy}
use loadbalancer.Backend.Float.{Float}
use loadbalancer.Backend.Pool.{
  BackendPool, RoutingAlgorithm, round_robin, least_connections, find_in, find_backend, has_address,
  is_usable, usable, total_weight, pick_weighted, select_weighted_round_robin, if_usable,
  sticky_backend, load, min_element, choose, select_backend,
}

pick_weighted-keeps :
    (P : ℕ → Type 0) (nodes : Nodes) (first target sum : ℕ) (rs : List ℕ)
    → P first
    → All P rs
    → P (pick_weighted nodes first target sum rs)
unfolding pick_weighted
pick_weighted-keeps P nodes first target sum [] h k = h
pick_weighted-keeps P nodes first target sum (r ∷ rs) h k =
    let next = u32 (sum + (nodes r).weight) in
    let rest = pick_weighted-keeps P nodes first target next rs h k.1 in
    elim (Bool-cases (ltb target next)) [ inl e ↦ rw e k.0 | inr e ↦ rw e rest ]

min_element-keeps :
    (fl : Float) (P : ℕ → Type 0) (nodes : Nodes) (smallest : ℕ) (rs : List ℕ)
    → P smallest
    → All P rs
    → P (min_element fl nodes smallest rs)
unfolding min_element
min_element-keeps fl P nodes smallest [] h k = h
min_element-keeps fl P nodes smallest (r ∷ rs) h k =
    elim (Bool-cases (fl.lt (load fl nodes r) (load fl nodes smallest))) [
      | inl e ↦ rw e (min_element-keeps fl P nodes r rs k.0 k.1)
      | inr e ↦ rw e (min_element-keeps fl P nodes smallest rs h k.1)
    ]

choose-keeps :
    (fl : Float) (P : ℕ → Type 0) (nodes : Nodes) (a : RoutingAlgorithm) (rs : List ℕ)
    (p : BackendPool)
    → All P rs
    → OnSome P (choose fl nodes a rs p).1
unfolding choose select_weighted_round_robin
choose-keeps fl P nodes a [] p h = tt
choose-keeps fl P nodes least_connections (first ∷ rest) p h =
    min_element-keeps fl P nodes first rest h.0 h.1
choose-keeps fl P nodes round_robin (first ∷ rest) p h =
    let total = total_weight nodes 0 (first ∷ rest) in
    let picked =
      pick_weighted-keeps P nodes first (p.weighted_counter % total) 0 (first ∷ rest) h.0 h in
    elim (Bool-cases (nat_eq total 0)) [ inl z ↦ rw z h.0 | inr z ↦ rw z picked ]

pub find_in-keeps :
    (P : ℕ → Type 0) (nodes : Nodes) (host : Text) (port : ℕ) (rs : List ℕ)
    → All P rs
    → OnSome P (find_in nodes host port rs)
unfolding find_in
find_in-keeps P nodes host port [] h = tt
find_in-keeps P nodes host port (q ∷ rs) h = elim (Bool-cases (has_address nodes host port q)) [
  | inl z ↦ rw z h.0
  | inr z ↦ rw z (find_in-keeps P nodes host port rs h.1)
]

-- A backend that the pool may hand out: one of its own, healthy, and below the limit if there is one.
abbrev pub Serves : Nodes → ℕ → BackendPool → ℕ → Type 0
Serves nodes limit p r =
    Memᴰ r p.backends
    × ((nodes r).state ≡ healthy)
    × ((limit ≡ 0) ⊎ ((nodes r).active_connections < limit))

pub usable-Serves :
    (nodes : Nodes) (limit : ℕ) (p : BackendPool) (r : ℕ)
    → Memᴰ r p.backends
    → is_usable nodes limit r ≡ true
    → Serves nodes limit p r
usable-Serves nodes limit p r m u = (m, ground arith, ground arith)

pub Serves-usable :
    (nodes : Nodes) (limit : ℕ) (p : BackendPool) (r : ℕ)
    → Serves nodes limit p r
    → is_usable nodes limit r ≡ true
Serves-usable nodes limit p r s = ground arith

if_usable-Serves :
    (nodes : Nodes) (limit : ℕ) (p : BackendPool) (o : Option ℕ)
    → OnSome (λ r. Memᴰ r p.backends) o
    → OnSome (Serves nodes limit p) (if_usable nodes limit o)
unfolding if_usable
if_usable-Serves nodes limit p none h = tt
if_usable-Serves nodes limit p (some r) h = elim (Bool-cases (is_usable nodes limit r)) [
  | inl u ↦ rw u (usable-Serves nodes limit p r h u)
  | inr u ↦ rw u tt
]

sticky_backend-Serves :
    (nodes : Nodes) (limit : ℕ) (host : Text) (port : ℕ) (p : BackendPool)
    → OnSome (Serves nodes limit p) (sticky_backend nodes limit host port p)
unfolding sticky_backend find_backend
sticky_backend-Serves nodes limit host port p =
    elim (Bool-cases (not (is_empty host) && ltb 0 port)) [
      | inr off ↦ rw off tt
      | inl on ↦ rw on (
          if_usable-Serves nodes limit p (find_in nodes host port p.backends) (
            find_in-keeps (λ r. Memᴰ r p.backends) nodes host port p.backends
              (All-Memᴰ p.backends)))
    ]

usable-All :
    (nodes : Nodes) (limit : ℕ) (p : BackendPool)
    → All (Serves nodes limit p) (usable nodes limit p)
usable-All nodes limit p =
    All-map (λ r. Memᴰ r p.backends × (is_usable nodes limit r ≡ true)) (Serves nodes limit p)
      (usable nodes limit p) (λ r h. usable-Serves nodes limit p r h.0 h.1)
      (keep_if-All-both (λ r. Memᴰ r p.backends) (is_usable nodes limit) p.backends
        (All-Memᴰ p.backends))

-- Whatever the algorithm, a backend that is returned is one of the pool's, is healthy, and has fewer
-- connections than the limit, if there is a limit.
pub select_backend-Serves :
    (fl : Float) (nodes : Nodes) (limit : ℕ) (host : Text) (port : ℕ) (p : BackendPool)
    → OnSome (Serves nodes limit p) (select_backend fl nodes limit host port p).1
unfolding select_backend
select_backend-Serves fl nodes limit host port p = elim (Bool-cases (is_empty p.backends)) [
  | inl e ↦ rw e tt
  | inr e ↦ rw e (elim (Option-cases (sticky_backend nodes limit host port p)) [
    | inl unstuck ↦ rw unstuck (
        choose-keeps fl (Serves nodes limit p) nodes p.algorithm (usable nodes limit p) p
          (usable-All nodes limit p))
    | inr (r, stuck) ↦ rw stuck (
        OnSome-get (Serves nodes limit p) (sticky_backend nodes limit host port p)
          (sticky_backend-Serves nodes limit host port p) stuck)
  ])
]

choose-some :
    (fl : Float) (nodes : Nodes) (a : RoutingAlgorithm) (rs : List ℕ) (p : BackendPool)
    → rs ≢ []
    → (choose fl nodes a rs p).1 ≢ none
unfolding choose
choose-some fl nodes a [] p h e = h refl
choose-some fl nodes round_robin (r ∷ rs) p h e = cc
choose-some fl nodes least_connections (r ∷ rs) p h e = cc

select_backend-some :
    (fl : Float) (nodes : Nodes) (limit : ℕ) (host : Text) (port : ℕ) (p : BackendPool) (r : ℕ)
    → Serves nodes limit p r
    → (select_backend fl nodes limit host port p).1 ≢ none
unfolding select_backend
select_backend-some fl nodes limit host port p r s =
    rw (Memᴰ-is_empty s.0) (elim (Option-cases (sticky_backend nodes limit host port p)) [
      | inl unstuck ↦ rw unstuck (
          choose-some fl nodes p.algorithm (usable nodes limit p) p (
            Memᴰ-ne-nil
              (keep_if-mem (is_usable nodes limit) r s.0 (Serves-usable nodes limit p r s))))
      | inr (q, stuck) ↦ rw stuck (λ e. cc)
    ])

-- `nullptr` is returned exactly when no backend of the pool may serve.
pub select_backend-none :
    (fl : Float) (nodes : Nodes) (limit : ℕ) (host : Text) (port : ℕ) (p : BackendPool)
    → ((select_backend fl nodes limit host port p).1 ≡ none) ↔ ((r : ℕ) → ¬ Serves nodes limit p r)
select_backend-none fl nodes limit host port p =
    (λ e r s. select_backend-some fl nodes limit host port p r s e, nothing)
  where
    nothing :
        ((r : ℕ) → ¬ Serves nodes limit p r) → (select_backend fl nodes limit host port p).1 ≡ none
    nothing h = elim (Option-cases (select_backend fl nodes limit host port p).1) [
      | inl e ↦ e
      | inr (r, e) ↦ absurd (
          h r (
            OnSome-get (Serves nodes limit p) _ (select_backend-Serves fl nodes limit host port p)
              e))
    ]
