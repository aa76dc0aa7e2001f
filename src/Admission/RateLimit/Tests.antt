-- ===== src/Admission/RateLimit/Tests.antt =====
-- Two checks of one address under a limit of one in a second.
use loadbalancer.Base.{
  ◌≡◌, ◌≤◌, refl, true, false, some, [], ◌∷◌, arith, length, Text, text_keys, bytes, find, assign,
}
use loadbalancer.Admission.Config.{Config}
use loadbalancer.Admission.RateLimit.{
  Tracker, recent, window_of, times_found, times_of, check_times, is_exempt, check_rate_limit,
}
use loadbalancer.Admission.RateLimit.Window.{Run, start, checks, Run-within}

abbrev config : Config
config = record {
  http_mode = true;
  ip_blacklist = [];
  ip_whitelist = [];
  rate_limit_enabled = true;
  rate_limit_max_connections = 1;
  rate_limit_window_seconds = 1;
  queue_enabled = false;
  queue_max_size = 0;
}

abbrev caller : Text
caller = bytes "::1"

abbrev once : Tracker
once = (caller, 10 ∷ []) ∷ []

first_run : check_rate_limit 10 caller (some config) [] ≡ (once, true)
unfolding check_rate_limit is_exempt check_times recent times_of times_found find assign
first_run = refl

second_run : check_rate_limit 1000000010 caller (some config) once ≡ (once, false)
unfolding check_rate_limit is_exempt check_times recent times_of times_found find assign
second_run = refl

third_run :
    check_rate_limit 1000000011 caller (some config) once ≡ ((caller, 1000000011 ∷ []) ∷ [], true)
unfolding check_rate_limit is_exempt check_times recent times_of times_found find assign
third_run = refl

counted : is_exempt caller config ≡ false
unfolding is_exempt
counted = refl

once_run : Run config caller 10 once (10 ∷ [])
unfolding check_rate_limit is_exempt check_times recent times_of times_found find assign
once_run = checks 0 10 caller [] [] start (omega arith)

Run-within_example : length (recent (window_of config) 10 (10 ∷ [])) ≤ 1
Run-within_example = Run-within config caller 10 once (10 ∷ []) counted once_run
