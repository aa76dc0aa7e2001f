-- ===== src/Backend/Pool/Sticky.antt =====
-- The session in select_backend of src/core/backend_pool.cpp.
use loadbalancer.Base.{
  ℕ, ◌∙◌, ◌≡◌, refl, ◌⊎◌, inl, inr, not, ◌&&◌, Option, none, some, [], Text, ltb, is_empty,
  Bool-cases, Option-cases, All-Memᴰ, Memᴰ, OnSome, OnSome-get, Memᴰ-is_empty, if◌then◌else◌,
}
use loadbalancer.Backend.Node.{Nodes}
use loadbalancer.Backend.Float.{Float}
use loadbalancer.Backend.Pool.{
  BackendPool, find_backend, is_usable, if_usable, sticky_backend, select_backend,
}
use loadbalancer.Backend.Pool.Selection.{Serves, find_in-keeps, usable-Serves, Serves-usable}

-- The backend that a session names: by a host that is not empty and a port that is not 0.
abbrev pub named_backend : Nodes → Text → ℕ → BackendPool → Option ℕ
named_backend nodes host port p =
    if not (is_empty host) && ltb 0 port then find_backend nodes host port p else none

sticky_backend-named_backend :
    (nodes : Nodes) (limit : ℕ) (host : Text) (port : ℕ) (p : BackendPool)
    → sticky_backend nodes limit host port p
      ≡ if_usable nodes limit (named_backend nodes host port p)
unfolding sticky_backend if_usable
sticky_backend-named_backend nodes limit host port p =
    elim (Bool-cases (not (is_empty host) && ltb 0 port)) [ inl e ↦ rw e refl | inr e ↦ rw e refl ]

named_backend_held :
    (nodes : Nodes) (host : Text) (port : ℕ) (p : BackendPool)
    → OnSome (λ r. Memᴰ r p.backends) (named_backend nodes host port p)
unfolding find_backend
named_backend_held nodes host port p = elim (Bool-cases (not (is_empty host) && ltb 0 port)) [
  | inl e ↦
      rw e (find_in-keeps (λ r. Memᴰ r p.backends) nodes host port p.backends (All-Memᴰ p.backends))
  | inr e ↦ rw e tt
]

module _ (fl : Float) (nodes : Nodes) (limit : ℕ) (p : BackendPool) where
  unstuck_same :
      (host : Text) (port : ℕ)
      → sticky_backend nodes limit host port p ≡ none
      → select_backend fl nodes limit host port p ≡ select_backend fl nodes limit [] 0 p
  unfolding select_backend sticky_backend
  unstuck_same host port h = rw h refl

  stuck_same :
      (host : Text) (port r : ℕ)
      → Memᴰ r p.backends
      → sticky_backend nodes limit host port p ≡ some r
      → select_backend fl nodes limit host port p ≡ (p, some r)
  unfolding select_backend
  stuck_same host port r m h = rw (Memᴰ-is_empty m, h) refl

  -- Whatever address a session has, the choice is one of two. Either the session names a backend of
  -- the pool that is healthy and has room: then that one is chosen, and the pool, so the turn of the
  -- round robin, is as it was. Or it names none, or one that is not healthy or has no room: then
  -- the choice and the pool are those for a client without a session.
  pub select_backend_sticky :
      (host : Text) (port : ℕ)
      → ((r : ℕ) × (named_backend nodes host port p ≡ some r)
          × Serves nodes limit p r
          × (select_backend fl nodes limit host port p ≡ (p, some r)))
        ⊎ (OnSome (λ r. ¬ Serves nodes limit p r) (named_backend nodes host port p)
            × (select_backend fl nodes limit host port p ≡ select_backend fl nodes limit [] 0 p))
  unfolding if_usable
  select_backend_sticky host port =
      let way = sticky_backend-named_backend nodes limit host port p in
      elim (Option-cases (named_backend nodes host port p)) [
        | inl e ↦ inr (rw e tt, unstuck_same host port (way ∙ rw e refl))
        | inr (r, e) ↦
            let m =
              OnSome-get (λ q. Memᴰ q p.backends) _ (named_backend_held nodes host port p) e in
            elim (Bool-cases (is_usable nodes limit r)) [
              | inl u ↦ inl (
                r,
                e,
                usable-Serves nodes limit p r m u,
                stuck_same host port r m (way ∙ rw (e, u) refl),
              )
              | inr u ↦ inr (
                rw e (λ s. let v = Serves-usable nodes limit p r s in cc),
                unstuck_same host port (way ∙ rw (e, u) refl),
              )
            ]
      ]
