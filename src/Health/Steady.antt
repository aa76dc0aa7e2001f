-- ===== src/Health/Steady.antt =====
-- Sequences of checks of src/health/health_checker.cpp and the backends they are not about.
use loadbalancer.Base.{
  ℕ, ◌≡◌, ◌≢◌, refl, ◌∙◌, ◌⊎◌, Bool, true, false, ◌&&◌, List, [], ◌∷◌, arith, leb, if-keeps,
}
use loadbalancer.Backend.Node.{
  Nodes, BackendState, healthy, unhealthy, draining, is_healthy, is_unhealthy, set_state, update,
}
use loadbalancer.Health.{
  HealthChecker, counter, incremented, after_success, after_failure, update_backend_state,
}
use loadbalancer.Health.Thresholds.{checks}

update_keeps :
    (r q : ℕ) (s : BackendState) (nodes : Nodes)
    → ((nodes q).state ≡ draining) ⊎ (r ≢ q)
    → (nodes r).state ≢ draining
    → update r (set_state s) nodes q ≡ nodes q
unfolding update
update_keeps r q s nodes e h = ground arith

update_backend_state_keep :
    (r q : ℕ) (v : Bool) (nodes : Nodes) (h : HealthChecker)
    → ((nodes q).state ≡ draining) ⊎ (r ≢ q)
    → (update_backend_state r v nodes h).0 q ≡ nodes q
unfolding update_backend_state after_success after_failure
update_backend_state_keep r q true nodes h e =
    if-keeps (λ (w : Nodes × HealthChecker). w.0 q ≡ nodes q)
      (is_unhealthy (nodes r).state
        && leb h.success_threshold (counter r (incremented r h.consecutive_successes)))
      (λ t. update_keeps r q healthy nodes e (ground arith)) (λ t. refl)
update_backend_state_keep r q false nodes h e =
    if-keeps (λ (w : Nodes × HealthChecker). w.0 q ≡ nodes q)
      (is_healthy (nodes r).state
        && leb h.failure_threshold (counter r (incremented r h.consecutive_failures)))
      (λ t. update_keeps r q unhealthy nodes e (ground arith)) (λ t. refl)

-- A draining backend is left alone by any sequence of checks, also of itself, and the checks of one
-- backend leave every other alone.
pub checks_keep :
    (r q : ℕ) (vs : List Bool) (nodes : Nodes) (h : HealthChecker)
    → ((nodes q).state ≡ draining) ⊎ (r ≢ q)
    → (checks r vs (nodes, h)).0 q ≡ nodes q
unfolding checks
checks_keep r q [] nodes h e = refl
checks_keep r q (v ∷ vs) nodes h e =
    let same = update_backend_state_keep r q v nodes h e in
    let w = update_backend_state r v nodes h in checks_keep r q vs w.0 w.1 (rw same e) ∙ same
