-- ===== src/Health.antt =====
-- src/health/health_checker.h and health_checker.cpp. The loop's thread runs one check at a time;
-- what the network does in a check is an argument.
pub mod Status
pub mod Thresholds
pub mod Steady
mod Tests
use loadbalancer.Base.{
  ℕ, ◌+◌, Bool, true, false, not, ◌&&◌, Option, none, some, List, [], ◌∷◌, ◌++◌, Text, bytes, crlf,
  decimal, length, text_eq, nat_eq, leb, u32, if◌then◌else◌, keep_if, Map, find, assign, erase,
  ℕ_keys,
}
use Status.{read_status}
use loadbalancer.Backend.Node.{
  BackendNode, Nodes, BackendState, healthy, unhealthy, is_healthy, is_unhealthy, set_state, update,
}

pub record HealthChecker : Type 0 where
  pub backends : List ℕ
  pub running : Bool
  pub interval_ms : ℕ
  pub timeout_ms : ℕ
  pub failure_threshold : ℕ
  pub success_threshold : ℕ
  pub check_type : Text
  pub check_path : Text
  pub consecutive_failures : Map ℕ ℕ
  pub consecutive_successes : Map ℕ ℕ

unfoldable pub new_checker : HealthChecker
new_checker = record {
  backends = [];
  running = false;
  interval_ms = 5000;
  timeout_ms = 500;
  failure_threshold = 3;
  success_threshold = 2;
  check_type = bytes "tcp";
  check_path = [];
  consecutive_failures = [];
  consecutive_successes = [];
}

unfoldable pub add_backend : ℕ → HealthChecker → HealthChecker
add_backend r h = record h {
  backends = h.backends ++ r ∷ [];
  consecutive_failures = assign r 0 h.consecutive_failures;
  consecutive_successes = assign r 0 h.consecutive_successes;
}

unfoldable pub remove_backend : ℕ → HealthChecker → HealthChecker
remove_backend r h = record h {
  backends = keep_if (λ q. not (nat_eq q r)) h.backends;
  consecutive_failures = erase r h.consecutive_failures;
  consecutive_successes = erase r h.consecutive_successes;
}

pub configure : ℕ → ℕ → ℕ → ℕ → Text → Text → HealthChecker → HealthChecker
configure interval timeout failures successes type path h = record h {
  interval_ms = interval;
  timeout_ms = timeout;
  failure_threshold = failures;
  success_threshold = successes;
  check_type = type;
  check_path = path;
}

-- `m[r]`: a counter that is not there yet starts at 0.
abbrev pub or_zero : Option ℕ → ℕ
or_zero none = 0
or_zero (some n) = n

abbrev pub counter : ℕ → Map ℕ ℕ → ℕ
counter r m = or_zero (find r m)

abbrev pub incremented : ℕ → Map ℕ ℕ → Map ℕ ℕ
incremented r m = assign r (u32 (counter r m + 1)) m

after_success : ℕ → Nodes → HealthChecker → Nodes × HealthChecker
after_success r nodes h =
    let successes = incremented r h.consecutive_successes in
    let h' : HealthChecker = record h {
      consecutive_failures = assign r 0 h.consecutive_failures;
      consecutive_successes = successes;
    } in
    if is_unhealthy (nodes r).state && leb h.success_threshold (counter r successes)
    then (
      update r (set_state healthy) nodes,
      record h' { consecutive_successes = assign r 0 successes },
    )
    else (nodes, h')

after_failure : ℕ → Nodes → HealthChecker → Nodes × HealthChecker
after_failure r nodes h =
    let failures = incremented r h.consecutive_failures in
    let h' : HealthChecker = record h {
      consecutive_successes = assign r 0 h.consecutive_successes;
      consecutive_failures = failures;
    } in
    if is_healthy (nodes r).state && leb h.failure_threshold (counter r failures)
    then (
      update r (set_state unhealthy) nodes,
      record h' { consecutive_failures = assign r 0 failures },
    )
    else (nodes, h')

pub update_backend_state : ℕ → Bool → Nodes → HealthChecker → Nodes × HealthChecker
update_backend_state r true nodes h = after_success r nodes h
update_backend_state r false nodes h = after_failure r nodes h

-- How a non-blocking `connect` goes: at once; later, with the answers of `select` and SO_ERROR; or
-- not at all.
pub data Connecting : Type 0 where
  at_once refused : Connecting
  in_progress : Bool → Bool → Connecting

-- What the system and the network do in one check. `answer` is what `recv` returns, if anything,
-- for the request that was sent.
pub record Probe : Type 0 where
  pub has_socket : Bool
  pub made_nonblocking : Bool
  pub resolved : Bool
  pub connecting : Connecting
  pub made_blocking : Bool
  pub bytes_sent : Text → ℕ
  pub has_timeout : Bool
  pub answer : Text → Option Text

abbrev is_connected : Connecting → Bool
is_connected at_once = true
is_connected (in_progress selected no_error) = selected && no_error
is_connected refused = false

request_text : Text → ℕ → Text → Text
request_text host port path =
    bytes "GET "
    ++ (path
        ++ (bytes " HTTP/1.1"
            ++ (crlf
                ++ (bytes "Host: "
                    ++ (host
                        ++ (bytes ":"
                            ++ (decimal port
                                ++ (crlf ++ (bytes "Connection: close" ++ (crlf ++ crlf))))))))))

check_http_health : Probe → Text → ℕ → Text → Bool
unfolding request_text
check_http_health e host port path =
    let request = request_text host port path in
    if e.made_blocking && nat_eq (e.bytes_sent request) (length request) && e.has_timeout
    then elim (e.answer request) [ none ↦ false | some response ↦ read_status response ]
    else false

-- The verdict of `check_backend`, by the branch that is taken.
verdict : Probe → BackendNode → HealthChecker → Bool
verdict e b h =
    if e.has_socket && e.made_nonblocking && e.resolved && is_connected e.connecting
    then if text_eq h.check_type (bytes "http")
      then check_http_health e b.host b.port h.check_path
      else true
    else false

pub check_backend : Probe → ℕ → Nodes → HealthChecker → Nodes × HealthChecker
check_backend e r nodes h = update_backend_state r (verdict e (nodes r) h) nodes h
