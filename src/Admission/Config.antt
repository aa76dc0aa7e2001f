-- ===== src/Admission/Config.antt =====
-- The fields of src/config/config.h that admission reads. `http_mode` is `mode == "http"`.
use loadbalancer.Base.{ℕ, Bool, List, Text}

pub record Config : Type 0 where
  pub http_mode : Bool
  pub ip_blacklist : List Text
  pub ip_whitelist : List Text
  pub rate_limit_enabled : Bool
  pub rate_limit_max_connections : ℕ
  pub rate_limit_window_seconds : ℕ
  pub queue_enabled : Bool
  pub queue_max_size : ℕ
