-- ===== src/Admission/Addresses/Tests.antt =====
-- A list of addresses.
use loadbalancer.Base.{◌≡◌, refl, true, false, some, [], ◌∷◌, bytes}
use loadbalancer.Admission.Config.{Config}
use loadbalancer.Admission.Addresses.{is_ip_allowed, passes_lists, listed}

abbrev config : Config
config = record {
  http_mode = true;
  ip_blacklist = bytes "10.0.0.1" ∷ [];
  ip_whitelist = bytes "10.0.0.1" ∷ bytes "10.0.0.2" ∷ [];
  rate_limit_enabled = false;
  rate_limit_max_connections = 0;
  rate_limit_window_seconds = 0;
  queue_enabled = false;
  queue_max_size = 0;
}

black_run : is_ip_allowed (bytes "10.0.0.1") (some config) ≡ false
unfolding is_ip_allowed passes_lists listed
black_run = refl

white_run : is_ip_allowed (bytes "10.0.0.2") (some config) ≡ true
unfolding is_ip_allowed passes_lists listed
white_run = refl
