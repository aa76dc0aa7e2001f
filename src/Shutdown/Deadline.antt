-- ===== src/Shutdown/Deadline.antt =====
-- When a graceful shutdown of src/core/load_balancer.cpp is over.
use loadbalancer.Base.{
  ℕ, ◌+◌, ◌≤◌, ◌≡◌, ◌⊎◌, inl, inr, refl, sym, subst, true, false, not, Option, none, some, leb,
  le→leb, OnSome, if-keeps,
}
use loadbalancer.Health.{HealthChecker}
use loadbalancer.World.{World}
use loadbalancer.Manager.{PoolRelease}
use loadbalancer.Shutdown.{
  Service, stop, finish_shutdown, start_drain, is_idle, finish_if_idle, shutdown_gracefully,
  check_graceful_shutdown,
}

-- Nothing takes new connections, and neither thread goes on.
pub record IsOver (s : Service) : Type 0 where
  pub no_listener : s.listener ≡ none
  pub no_drain : s.is_in_drain ≡ false
  pub no_reactor : s.is_running ≡ false
  pub no_checks : OnSome (λ h. h.running ≡ false) s.health_checker

-- The drain goes on, to the deadline.
record IsDraining (deadline : ℕ) (s : Service) : Type 0 where
  no_listener : s.listener ≡ none
  drains : s.is_in_drain ≡ true
  until : s.shutdown_deadline ≡ deadline

stop_stops : (o : Option HealthChecker) → OnSome (λ h. h.running ≡ false) (stop o)
unfolding stop
stop_stops none = tt
stop_stops (some h) = refl

finish_shutdown-IsOver :
    (pool : PoolRelease) (s : Service) → s.listener ≡ none → IsOver (finish_shutdown pool s)
unfolding finish_shutdown
finish_shutdown-IsOver pool s h = record {
  no_listener = h;
  no_drain = refl;
  no_reactor = refl;
  no_checks = stop_stops s.health_checker;
}

start_drain-IsDraining :
    (now timeout : ℕ) (s : Service) → IsDraining (now + timeout) (start_drain now timeout s)
unfolding start_drain
start_drain-IsDraining now timeout s = record { no_listener = refl; drains = refl; until = refl }

shutdown_gracefully_ways :
    (pool : PoolRelease) (start timeout : ℕ) (s : Service)
    → s.shutdown_requested ≡ false
    → let y = shutdown_gracefully pool start timeout s in IsOver y ⊎ IsDraining (start + timeout) y
unfolding shutdown_gracefully finish_if_idle
shutdown_gracefully_ways pool start timeout s h =
    let x : Service = start_drain start timeout s in
    let d : IsDraining (start + timeout) x = start_drain-IsDraining start timeout s in
    let Way : Service → Type 0 = λ y. IsOver y ⊎ IsDraining (start + timeout) y in
    if-keeps Way s.shutdown_requested (λ e. cc)
      (λ e.
        if-keeps Way (is_idle x) (λ i. inl (finish_shutdown-IsOver pool x d.no_listener))
          (λ i. inr d))

check-IsOver :
    (pool : PoolRelease) (now : ℕ) (s : Service)
    → IsOver s
    → IsOver (check_graceful_shutdown pool now s)
unfolding check_graceful_shutdown
check-IsOver pool now s h =
    let off : s.is_in_drain ≡ false = h.no_drain in
    if-keeps IsOver (not s.is_in_drain) (λ e. h) (λ e. cc)

check_late-IsOver :
    (pool : PoolRelease) (now deadline : ℕ) (s : Service)
    → deadline ≤ now
    → IsDraining deadline s
    → IsOver (check_graceful_shutdown pool now s)
unfolding check_graceful_shutdown
check_late-IsOver pool now deadline s le h =
    let f : IsOver (finish_shutdown pool s) = finish_shutdown-IsOver pool s h.no_listener in
    let on : s.is_in_drain ≡ true = h.drains in
    let due : leb s.shutdown_deadline now ≡ true =
      le→leb s.shutdown_deadline now (subst (λ d. d ≤ now) (sym h.until) le) in
    if-keeps IsOver (not s.is_in_drain) (λ e. cc)
      (λ e.
        if-keeps IsOver (is_idle s) (λ i. f)
          (λ i. if-keeps IsOver (leb s.shutdown_deadline now) (λ j. f) (λ j. cc)))

-- A shutdown is over by its deadline. Let a service that has not been asked to shut down be asked at
-- `start`, and let its tables become anything: the first check at the deadline or later leaves no
-- listener, ends the drain, and has stopped the reactor and the health checker, where there is one,
-- whether clients were connected or not.
pub check_graceful_shutdown-IsOver :
    (pool : PoolRelease) (start timeout now : ℕ) (s : Service) (w : World)
    → s.shutdown_requested ≡ false
    → start + timeout ≤ now
    → IsOver (
        check_graceful_shutdown pool now
          (record (shutdown_gracefully pool start timeout s) { world = w }))
check_graceful_shutdown-IsOver pool start timeout now s w h le =
    let y : Service = shutdown_gracefully pool start timeout s in
    elim (shutdown_gracefully_ways pool start timeout s h) [
      | inl o ↦
          check-IsOver pool now (record y { world = w })
            (record {
              no_listener = o.no_listener;
              no_drain = o.no_drain;
              no_reactor = o.no_reactor;
              no_checks = o.no_checks;
            })
      | inr d ↦
          check_late-IsOver pool now (start + timeout) (record y { world = w }) le
            (record { no_listener = d.no_listener; drains = d.drains; until = d.until })
    ]
