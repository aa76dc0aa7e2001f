-- ===== src/Health/Thresholds.antt =====
-- Sequences of checks of src/health/health_checker.cpp and the two thresholds.
use native.Mathlib.Nat.{mod-eq_of_lt}
use loadbalancer.Base.{
  ℕ, zero, suc, ◌+◌, ◌≤◌, ◌<◌, ◌≡◌, refl, ap, ◌∙◌, Bool, true, false, List, [], ◌∷◌, arith, le→leb,
  lt→leb_false, ltb, nat_eq_iff, u32, u32_mod, if◌then◌else◌, Bool-cases, inl, inr, lt→ltb, ltb→lt,
  ltb_false→le, Map, assign, find-assign, ℕ_keys, replicate,
}
use loadbalancer.Backend.Node.{
  BackendNode, Nodes, BackendState, healthy, unhealthy, set_state, update,
}
use loadbalancer.Health.{
  HealthChecker, counter, incremented, after_success, after_failure, update_backend_state,
}

-- The checks of the backend `r`, one after the other, by their verdicts.
unfoldable pub checks : ℕ → List Bool → Nodes × HealthChecker → Nodes × HealthChecker
checks r [] (nodes, h) = (nodes, h)
checks r (v ∷ vs) (nodes, h) = checks r vs (update_backend_state r v nodes h)

counter-assign : (r n : ℕ) (m : Map ℕ ℕ) → counter r (assign r n m) ≡ n
counter-assign r n m = rw (find-assign r r n m, (nat_eq_iff r r).1 refl)

update_self :
    (r : ℕ) (f : BackendNode → BackendNode) (nodes : Nodes) → update r f nodes r ≡ f (nodes r)
unfolding update
update_self r f nodes = rw ((nat_eq_iff r r).1 refl)

-- How `r` stands, and how many checks in a row went one way.
pub record Counts (r k : ℕ) (s : BackendState) (m : Map ℕ ℕ) (nodes : Nodes) : Type 0 where
  pub stands : (nodes r).state ≡ s
  pub counted : counter r m ≡ k

incremented-counter :
    (r k : ℕ) (m : Map ℕ ℕ)
    → counter r m ≡ k
    → k + 1 < u32_mod
    → counter r (incremented r m) ≡ k + 1
incremented-counter r k m e h = counter-assign r (u32 (counter r m + 1)) m ∙ rw e (mod-eq_of_lt h)

-- One more failure, below the threshold and at it.
fail_below :
    (r k : ℕ) (nodes : Nodes) (h : HealthChecker)
    → Counts r k healthy h.consecutive_failures nodes
    → k + 1 < h.failure_threshold
    → h.failure_threshold < u32_mod
    → let w = update_backend_state r false nodes h in
      Counts r (k + 1) healthy w.1.consecutive_failures w.0
      × (w.1.failure_threshold ≡ h.failure_threshold)
unfolding update_backend_state after_failure
fail_below r k nodes h c below small =
    let count = incremented-counter r k h.consecutive_failures c.counted (omega arith) in
    rw (c.stands, count, lt→leb_false (k + 1) h.failure_threshold below)
      (record { stands = c.stands; counted = count }, refl)

fail_at :
    (r k : ℕ) (nodes : Nodes) (h : HealthChecker)
    → Counts r k healthy h.consecutive_failures nodes
    → k + 1 ≡ h.failure_threshold
    → h.failure_threshold < u32_mod
    → let w = update_backend_state r false nodes h in
      Counts r 0 unhealthy w.1.consecutive_failures w.0
unfolding update_backend_state after_failure
fail_at r k nodes h c at small =
    let failures = h.consecutive_failures in
    let count = incremented-counter r k failures c.counted (omega arith) in
    rw (c.stands, count, le→leb h.failure_threshold (k + 1) (omega arith))
      (record {
        stands = unfold set_state in ap (λ b. b.state) (update_self r (set_state unhealthy) nodes);
        counted = counter-assign r 0 (incremented r failures);
      })

goes_down_from :
    (n r k : ℕ) (nodes : Nodes) (h : HealthChecker)
    → Counts r k healthy h.consecutive_failures nodes
    → k + suc n ≡ h.failure_threshold
    → h.failure_threshold < u32_mod
    → let w = checks r (replicate (suc n) false) (nodes, h) in
      Counts r 0 unhealthy w.1.consecutive_failures w.0
unfolding checks
goes_down_from zero r k nodes h c e small = fail_at r k nodes h c (omega arith) small
goes_down_from (suc n) r k nodes h c e small =
    let (c', same) = fail_below r k nodes h c (omega arith) small in
    let w = update_backend_state r false nodes h in
    goes_down_from n r (k + 1) w.0 w.1 c' (omega (arith, same)) (omega (arith, same))

stays_up_from :
    (n r k : ℕ) (nodes : Nodes) (h : HealthChecker)
    → Counts r k healthy h.consecutive_failures nodes
    → k + n < h.failure_threshold
    → h.failure_threshold < u32_mod
    → ((checks r (replicate n false) (nodes, h)).0 r).state ≡ healthy
unfolding checks
stays_up_from zero r k nodes h c e small = c.stands
stays_up_from (suc n) r k nodes h c e small =
    let (c', same) = fail_below r k nodes h c (omega arith) small in
    let w = update_backend_state r false nodes h in
    stays_up_from n r (k + 1) w.0 w.1 c' (omega (arith, same)) (omega (arith, same))

-- A healthy backend with no failure counted stays healthy for fewer failed checks in a row than the
-- threshold, and is unhealthy right when they reach it; the threshold is a uint32_t and not 0.
pub goes_down :
    (n r : ℕ) (nodes : Nodes) (h : HealthChecker)
    → Counts r 0 healthy h.consecutive_failures nodes
    → 0 < h.failure_threshold
    → h.failure_threshold < u32_mod
    → n ≤ h.failure_threshold
    → ((checks r (replicate n false) (nodes, h)).0 r).state
      ≡ (if ltb n h.failure_threshold then healthy else unhealthy)
goes_down zero r nodes h c pos small le =
    rw (lt→ltb 0 h.failure_threshold pos) (stays_up_from 0 r 0 nodes h c pos small)
goes_down (suc n) r nodes h c pos small le = elim (Bool-cases (ltb (suc n) h.failure_threshold)) [
  | inl below ↦
      rw below (stays_up_from (suc n) r 0 nodes h c (omega (arith, ltb→lt _ _ below)) small)
  | inr at ↦
      rw at (goes_down_from n r 0 nodes h c (omega (arith, ltb_false→le _ _ at)) small).stands
]

-- One more success, below the threshold and at it.
pass_below :
    (r k : ℕ) (nodes : Nodes) (h : HealthChecker)
    → Counts r k unhealthy h.consecutive_successes nodes
    → k + 1 < h.success_threshold
    → h.success_threshold < u32_mod
    → let w = update_backend_state r true nodes h in
      Counts r (k + 1) unhealthy w.1.consecutive_successes w.0
      × (w.1.success_threshold ≡ h.success_threshold)
unfolding update_backend_state after_success
pass_below r k nodes h c below small =
    let count = incremented-counter r k h.consecutive_successes c.counted (omega arith) in
    rw (c.stands, count, lt→leb_false (k + 1) h.success_threshold below)
      (record { stands = c.stands; counted = count }, refl)

pass_at :
    (r k : ℕ) (nodes : Nodes) (h : HealthChecker)
    → Counts r k unhealthy h.consecutive_successes nodes
    → k + 1 ≡ h.success_threshold
    → h.success_threshold < u32_mod
    → let w = update_backend_state r true nodes h in
      Counts r 0 healthy w.1.consecutive_successes w.0
unfolding update_backend_state after_success
pass_at r k nodes h c at small =
    let successes = h.consecutive_successes in
    let count = incremented-counter r k successes c.counted (omega arith) in
    rw (c.stands, count, le→leb h.success_threshold (k + 1) (omega arith))
      (record {
        stands = unfold set_state in ap (λ b. b.state) (update_self r (set_state healthy) nodes);
        counted = counter-assign r 0 (incremented r successes);
      })

comes_back_from :
    (n r k : ℕ) (nodes : Nodes) (h : HealthChecker)
    → Counts r k unhealthy h.consecutive_successes nodes
    → k + suc n ≡ h.success_threshold
    → h.success_threshold < u32_mod
    → let w = checks r (replicate (suc n) true) (nodes, h) in
      Counts r 0 healthy w.1.consecutive_successes w.0
unfolding checks
comes_back_from zero r k nodes h c e small = pass_at r k nodes h c (omega arith) small
comes_back_from (suc n) r k nodes h c e small =
    let (c', same) = pass_below r k nodes h c (omega arith) small in
    let w = update_backend_state r true nodes h in
    comes_back_from n r (k + 1) w.0 w.1 c' (omega (arith, same)) (omega (arith, same))

stays_down_from :
    (n r k : ℕ) (nodes : Nodes) (h : HealthChecker)
    → Counts r k unhealthy h.consecutive_successes nodes
    → k + n < h.success_threshold
    → h.success_threshold < u32_mod
    → ((checks r (replicate n true) (nodes, h)).0 r).state ≡ unhealthy
unfolding checks
stays_down_from zero r k nodes h c e small = c.stands
stays_down_from (suc n) r k nodes h c e small =
    let (c', same) = pass_below r k nodes h c (omega arith) small in
    let w = update_backend_state r true nodes h in
    stays_down_from n r (k + 1) w.0 w.1 c' (omega (arith, same)) (omega (arith, same))

-- An unhealthy backend with no success counted comes back right when the checks passed in a row
-- reach the threshold, and not before; the threshold is a uint32_t and not 0.
pub comes_back :
    (n r : ℕ) (nodes : Nodes) (h : HealthChecker)
    → Counts r 0 unhealthy h.consecutive_successes nodes
    → 0 < h.success_threshold
    → h.success_threshold < u32_mod
    → n ≤ h.success_threshold
    → ((checks r (replicate n true) (nodes, h)).0 r).state
      ≡ (if ltb n h.success_threshold then unhealthy else healthy)
comes_back zero r nodes h c pos small le =
    rw (lt→ltb 0 h.success_threshold pos) (stays_down_from 0 r 0 nodes h c pos small)
comes_back (suc n) r nodes h c pos small le = elim (Bool-cases (ltb (suc n) h.success_threshold)) [
  | inl below ↦
      rw below (stays_down_from (suc n) r 0 nodes h c (omega (arith, ltb→lt _ _ below)) small)
  | inr at ↦
      rw at (comes_back_from n r 0 nodes h c (omega (arith, ltb_false→le _ _ at)) small).stands
]
