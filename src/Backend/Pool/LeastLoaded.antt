-- ===== src/Backend/Pool/LeastLoaded.antt =====
-- The choice of least_connections: connections for each unit of weight, without the rounding.
use native.Mathlib.Nat.{le_of_mul-le-mul_left, mul-le-mul_left}
use loadbalancer.Base.{
  ℕ, ◌*◌, ◌≤◌, ◌<◌, ◌≡◌, inl, inr, refl, true, some, List, [], ◌∷◌, arith, Bool-cases, All, OnSome,
  OnSome-get, All-map, All-get, keep_if-All-both, keep_if-mem, Memᴰ-is_empty, if◌then◌else◌,
  false-ne-true, le_of_not_lt,
}
use loadbalancer.Backend.Node.{Nodes}
use loadbalancer.Backend.Float.{Float}
use loadbalancer.Backend.Pool.{
  BackendPool, RoutingAlgorithm, round_robin, least_connections, is_usable, usable, load,
  min_element, sticky_backend, choose, select_backend,
}
use loadbalancer.Backend.Pool.Selection.{Serves, Serves-usable}

-- The range in which the quotients are told apart.
pub record IsLight (nodes : Nodes) (r : ℕ) : Type 0 where
  pub connections : (nodes r).active_connections < 67108864
  pub weight : (nodes r).weight < 67108864
  pub positive : 0 < (nodes r).weight

-- `m` has at most the connections of `r` for each unit of weight.
abbrev pub NoHeavier : Nodes → ℕ → ℕ → Type 0
NoHeavier nodes m r =
    (nodes m).active_connections * (nodes r).weight
    ≤ (nodes r).active_connections * (nodes m).weight

cross_trans : (a b c d e f : ℕ) → 0 < d → a * d ≤ c * b → c * f ≤ e * d → a * f ≤ e * b
cross_trans a b c d e f pos h k =
    le_of_mul-le-mul_left {k = d} (omega (arith, mul-le-mul_left f h, mul-le-mul_left b k)) pos

NoHeavier-trans :
    (nodes : Nodes) (m q r : ℕ)
    → IsLight nodes q
    → NoHeavier nodes m q
    → NoHeavier nodes q r
    → NoHeavier nodes m r
NoHeavier-trans nodes m q r light h k =
    cross_trans (nodes m).active_connections (nodes m).weight (nodes q).active_connections
      (nodes q).weight (nodes r).active_connections (nodes r).weight light.positive h k

-- The test of the loop tells which of two backends is no heavier.
load_order :
    (fl : Float) (nodes : Nodes) (r q : ℕ)
    → IsLight nodes r
    → IsLight nodes q
    → if fl.lt (load fl nodes r) (load fl nodes q) then NoHeavier nodes r q else NoHeavier nodes q r
unfolding load
load_order fl nodes r q h k =
    let law =
      fl.lt-div (nodes r).active_connections (nodes r).weight (nodes q).active_connections
        (nodes q).weight h.connections h.weight k.connections k.weight h.positive k.positive in
    elim (Bool-cases (fl.lt (load fl nodes r) (load fl nodes q))) [
      | inl e ↦ rw e (omega (arith, law.0 e))
      | inr e ↦ rw e (le_of_not_lt (λ l. false-ne-true e (law.1 l)))
    ]

min_element-NoHeavier :
    (fl : Float) (nodes : Nodes) (smallest m : ℕ) (rs : List ℕ)
    → IsLight nodes smallest
    → All (IsLight nodes) rs
    → min_element fl nodes smallest rs ≡ m
    → NoHeavier nodes m smallest × All (NoHeavier nodes m) rs
unfolding min_element
min_element-NoHeavier fl nodes smallest m [] h k e = (rw e (omega arith), tt)
min_element-NoHeavier fl nodes smallest m (r ∷ rs) h k e =
    let order = load_order fl nodes r smallest k.0 h in
    elim (Bool-cases (fl.lt (load fl nodes r) (load fl nodes smallest))) [
      | inl t ↦
          let ih = min_element-NoHeavier fl nodes r m rs k.0 k.1 (rw t at e) in
          (NoHeavier-trans nodes m r smallest k.0 ih.0 (rw t at order), ih)
      | inr t ↦
          let ih = min_element-NoHeavier fl nodes smallest m rs h k.1 (rw t at e) in
          (ih.0, (NoHeavier-trans nodes m smallest r h ih.0 (rw t at order), ih.1))
    ]

choose-NoHeavier :
    (fl : Float) (nodes : Nodes) (a : RoutingAlgorithm) (rs : List ℕ) (p : BackendPool)
    → a ≡ least_connections
    → All (IsLight nodes) rs
    → OnSome (λ m. All (NoHeavier nodes m) rs) (choose fl nodes a rs p).1
unfolding choose
choose-NoHeavier fl nodes a [] p e h = tt
choose-NoHeavier fl nodes least_connections (first ∷ rest) p e h =
    let (light, rest_light) = min_element-NoHeavier fl nodes first _ rest h.0 h.1 refl in
    (light, rest_light)
choose-NoHeavier fl nodes round_robin (first ∷ rest) p e h = cc

-- With least_connections, a client with no session goes to a backend that has, for each unit of its
-- weight, at most as many connections as any other that may serve; connections and weights are
-- below 2 ^ 26 and no weight is 0.
pub select_backend_least :
    (fl : Float) (nodes : Nodes) (limit : ℕ) (p : BackendPool) {m r : ℕ}
    → p.algorithm ≡ least_connections
    → All (IsLight nodes) p.backends
    → (select_backend fl nodes limit [] 0 p).1 ≡ some m
    → Serves nodes limit p r
    → NoHeavier nodes m r
unfolding select_backend sticky_backend
select_backend_least fl nodes limit p {m} {r} a h e s =
    let rs = usable nodes limit p in
    let lights : All (IsLight nodes) rs =
      All-map (λ q. IsLight nodes q × (is_usable nodes limit q ≡ true)) (IsLight nodes) rs
        (λ q x. x.0) (keep_if-All-both (IsLight nodes) (is_usable nodes limit) p.backends h) in
    let chosen : (choose fl nodes p.algorithm rs p).1 ≡ some m = rw (Memᴰ-is_empty s.0) at e in
    All-get (NoHeavier nodes m) r
      (keep_if-mem (is_usable nodes limit) r s.0 (Serves-usable nodes limit p r s))
      (OnSome-get (λ q. All (NoHeavier nodes q) rs) _
        (choose-NoHeavier fl nodes p.algorithm rs p a lights) chosen)
