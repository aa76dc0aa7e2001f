-- ===== src/Admission/Accept/Gates.antt =====
-- handle_accept and the queue of src/core/load_balancer.cpp, on every branch.
use loadbalancer.Base.{
  ℕ, ◌+◌, ◌≤◌, ◌<◌, ◌≡◌, ◌⊎◌, inl, inr, refl, ap, Bool, true, false, not, Option, List, [], ◌∷◌,
  arith, length, length-append, keep_if, leb, Text, if-keeps, Bool-cases, leb→le,
}
use loadbalancer.Memory.{MemoryBudget}
use loadbalancer.World.Gauges.{Metrics, increment_queue_drops}
use loadbalancer.Admission.Config.{Config}
use loadbalancer.Admission.Addresses.{is_ip_allowed}
use loadbalancer.Admission.RateLimit.{Tracker, check_rate_limit}
use loadbalancer.Admission.Accept.{
  QueuedClient, Door, Outcome, turned_away, queued, let_in, has_queue_room, over_budget, enqueue,
  let_client_in, accept_counted, accept_checked, accept_from, has_waited, drop_waited,
  client_address, handle_accept,
}

module _ (active : ℕ) (config : Option Config) (budget : Option MemoryBudget) (max_global : ℕ) where
  -- What an outcome says of the gates and of the queue, which was `before`.
  pub Passed : Bool → Bool → List QueuedClient → Door × Outcome → Type 0
  Passed allowed ok before (d, turned_away a) = d.pending_clients ≡ before
  Passed allowed ok before (d, queued) =
      (allowed ≡ true)
      × (ok ≡ true)
      × (has_queue_room config before ≡ true)
      × (length d.pending_clients ≡ length before + 1)
      × ((over_budget budget ≡ true) ⊎ (max_global ≤ active))
  Passed allowed ok before (d, let_in c) =
      (allowed ≡ true)
      × (ok ≡ true)
      × (over_budget budget ≡ false)
      × (active < max_global)
      × (d.pending_clients ≡ before)

  accept_counted-Passed :
      (qc : QueuedClient) (d : Door)
      → Passed true true d.pending_clients (accept_counted active qc config budget max_global d)
  unfolding accept_counted Passed enqueue let_client_in
  accept_counted-Passed qc d =
      if-keeps (Passed true true d.pending_clients) (over_budget budget)
        (λ e.
          if-keeps (Passed true true d.pending_clients) (has_queue_room config d.pending_clients)
            (λ g. (refl, refl, g, length-append d.pending_clients (qc ∷ []), inl e)) (λ g. refl))
        (λ e.
          if-keeps (Passed true true d.pending_clients) (leb max_global active)
            (λ k.
              if-keeps (Passed true true d.pending_clients)
                (has_queue_room config d.pending_clients)
                (λ g. (
                  refl,
                  refl,
                  g,
                  length-append d.pending_clients (qc ∷ []),
                  inr (leb→le max_global active k),
                ))
                (λ g. refl))
            (λ k. (refl, refl, e, ground (arith, k), refl)))

  accept_checked-Passed :
      (qc : QueuedClient) (r : Tracker × Bool) (d : Door)
      → Passed true r.1 d.pending_clients (accept_checked active qc config budget max_global r d)
  unfolding accept_checked Passed
  accept_checked-Passed qc (tracker, true) d =
      accept_counted-Passed qc (record d { tracker = tracker })
  accept_checked-Passed qc (tracker, false) d = refl

  accept_from-Passed :
      (allowed : Bool) (qc : QueuedClient) (r : Tracker × Bool) (d : Door)
      → Passed allowed r.1 d.pending_clients
          (accept_from allowed active qc config budget max_global r d)
  unfolding accept_from Passed
  accept_from-Passed true qc r d = accept_checked-Passed qc r d
  accept_from-Passed false qc r d = refl

-- A client is let in only if its address is allowed, the rate limit admits it, the memory budget is
-- not exceeded and fewer clients than the global limit are active; it is queued only if it is allowed
-- and admitted, one of the other two gates is shut and the queue has room, and the queue is then one
-- longer; in every other case, refusals included, the queue stays as it was.
pub handle_accept-Passed :
    (now active fd : ℕ) (ip : Text) (config : Option Config) (budget : Option MemoryBudget)
    (max_global : ℕ) (d : Door)
    → Passed active config budget max_global
        (is_ip_allowed (client_address ip) config)
        (check_rate_limit now (client_address ip) config d.tracker).1
        d.pending_clients
        (handle_accept now active fd ip config budget max_global d)
unfolding handle_accept
handle_accept-Passed now active fd ip config budget max_global d =
    let caller = client_address ip in
    let qc : QueuedClient = record { fd = fd; client_ip = caller; enqueue_time = now } in
    accept_from-Passed active config budget max_global (is_ip_allowed caller config) qc
      (check_rate_limit now caller config d.tracker) d

-- Dropping those that have waited for too long leaves the others, in their order, and turns away one
-- client for each that goes.
pub drop_waited_leaves :
    (now max_wait : ℕ) (config : Option Config) (pending : List QueuedClient) (m : Metrics)
    → let r = drop_waited now max_wait config pending m in
      (r.0 ≡ keep_if (λ qc. not (has_waited now max_wait qc)) pending)
      × (length r.0 + length r.1 ≡ length pending)
unfolding drop_waited
drop_waited_leaves now max_wait config [] m = (refl, refl)
drop_waited_leaves now max_wait config (qc ∷ pending) m =
    elim (Bool-cases (has_waited now max_wait qc)) [
      | inl e ↦
          let k = drop_waited_leaves now max_wait config pending (increment_queue_drops m) in
          rw e (k.0, omega (arith, k.1))
      | inr e ↦
          let k = drop_waited_leaves now max_wait config pending m in
          rw e (ap (λ l. qc ∷ l) k.0, omega (arith, k.1))
    ]
