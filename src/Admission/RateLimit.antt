-- ===== src/Admission/RateLimit.antt =====
-- `check_rate_limit` and `cleanup_rate_limit_entries` of src/core/load_balancer.cpp. Times are the
-- nanoseconds of the steady clock; `ts < now - window` is written `ts + window < now`, since a
-- time_point is signed.
pub mod Limited
pub mod Window
mod Tests
use loadbalancer.Base.{
  ℕ, ◌+◌, ◌*◌, Bool, true, false, not, ◌&&◌, ◌||◌, Option, none, some, List, [], ◌∷◌, ◌++◌, length,
  keep_if, is_empty, ltb, leb, Text, text_eq, text_keys, bytes, Map, find, assign, if◌then◌else◌,
}
use loadbalancer.Admission.Config.{Config}

abbrev pub Tracker : Type 0
Tracker = Map Text (List ℕ)

-- What `remove_if` leaves.
unfoldable pub recent : ℕ → ℕ → List ℕ → List ℕ
recent window now times = keep_if (λ t. not (ltb (t + window) now)) times

abbrev pub window_of : Config → ℕ
window_of config = config.rate_limit_window_seconds * 1000000000

-- `rate_limit_tracker_[client_ip]` makes an empty entry where there is none.
unfoldable pub times_found : Option (List ℕ) → List ℕ
times_found none = []
times_found (some times) = times

unfoldable pub times_of : Text → Tracker → List ℕ
unfolding times_found
times_of ip tracker = times_found (find ip tracker)

unfoldable pub check_times : ℕ → Config → List ℕ → List ℕ × Bool
check_times now config times =
    let kept = recent (window_of config) now times in
    if leb config.rate_limit_max_connections (length kept)
    then (kept, false)
    else (kept ++ now ∷ [], true)

unfoldable pub is_exempt : Text → Config → Bool
is_exempt ip config = not config.rate_limit_enabled || is_empty ip || text_eq ip (bytes "unknown")

unfoldable pub check_rate_limit : ℕ → Text → Option Config → Tracker → Tracker × Bool
check_rate_limit now ip none tracker = (tracker, true)
check_rate_limit now ip (some config) tracker =
    if is_exempt ip config
    then (tracker, true)
    else let r = check_times now config (times_of ip tracker) in (assign ip r.0 tracker, r.1)

unfoldable pub cleanup_loop : ℕ → ℕ → Tracker → Tracker
cleanup_loop window now [] = []
cleanup_loop window now ((ip, times) ∷ tracker) =
    let kept = recent window now times in
    let rest = cleanup_loop window now tracker in if is_empty kept then rest else (ip, kept) ∷ rest

unfoldable pub cleanup_rate_limit_entries : ℕ → Option Config → Tracker → Tracker
cleanup_rate_limit_entries now none tracker = tracker
cleanup_rate_limit_entries now (some config) tracker =
    if not config.rate_limit_enabled then tracker else cleanup_loop (window_of config) now tracker
