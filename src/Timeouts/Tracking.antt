-- ===== src/Timeouts/Tracking.antt =====
-- BackpressureManager of src/core/backpressure_manager.cpp, as its caller sees it.
use loadbalancer.Base.{
  ℕ, ◌+◌, ◌≡◌, ap, true, false, Option, none, some, leb, is_some, Option-cases, inl, inr, find,
  find-assign_self, find-erase_self, ℕ_keys,
}
use loadbalancer.Timeouts.{Times, check_found, check_timeout, start_tracking, clear_tracking}

-- When a descriptor's backpressure began: earlier, if it is tracked, and else now.
abbrev pub began : ℕ → Option ℕ → ℕ
began now none = now
began now (some start) = start

find-start_tracking :
    (now fd : ℕ) (times : Times)
    → find fd (start_tracking now fd times).0 ≡ some (began now (find fd times))
unfolding start_tracking
find-start_tracking now fd times = elim (Option-cases (find fd times)) [
  | inl e ↦ rw e (find-assign_self fd now times)
  | inr e ↦ rw e.1 e.1
]

-- Backpressure that starts again while it is tracked keeps the time of its first start, and it times
-- out exactly when `timeout_ms` have passed since then; once it is cleared it never times out, and
-- clearing says that it was tracked.
pub check_timeout-start_tracking :
    (now later timeout_ms fd : ℕ) (times : Times)
    → let tracked = (start_tracking now fd times).0 in
      (check_timeout later timeout_ms fd tracked
        ≡ leb (began now (find fd times) + timeout_ms) later)
      × (check_timeout later timeout_ms fd (clear_tracking fd tracked).0 ≡ false)
      × ((clear_tracking fd tracked).1 ≡ true)
unfolding check_timeout check_found clear_tracking
check_timeout-start_tracking now later timeout_ms fd times =
    let tracked = (start_tracking now fd times).0 in
    (
      ap (check_found later timeout_ms) (find-start_tracking now fd times),
      ap (check_found later timeout_ms) (find-erase_self fd tracked),
      ap is_some (find-start_tracking now fd times),
    )
