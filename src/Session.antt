-- ===== src/Session.antt =====
-- src/core/session_manager.h and session_manager.cpp. The steady clock's reading, in its own ticks,
-- is the argument `now` of each method; `ticks` is how many make a second.
pub mod Expiry
mod Tests
use loadbalancer.Base.{
  ℕ, ◌+◌, ◌*◌, Bool, true, false, Option, none, some, List, [], ◌∷◌, Text, leb, if◌then◌else◌, Map,
  find, assign, erase, text_keys, keep_if, not, length,
}

pub record SessionInfo : Type 0 where
  pub backend_host : Text
  pub backend_port : ℕ
  pub expires_at : ℕ

abbrev pub Sessions : Type 0
Sessions = Map Text SessionInfo

-- An entry that has run out is not found, though it is still there.
unexpired : ℕ → Option SessionInfo → Option SessionInfo
unexpired now none = none
unexpired now (some s) = if leb s.expires_at now then none else some s

pub get_session : Text → ℕ → Sessions → Option SessionInfo
get_session key now m = unexpired now (find key m)

pub set_session : ℕ → Text → Text → ℕ → ℕ → ℕ → Sessions → Sessions
set_session ticks key host port ttl_seconds now m =
    assign key
      (record { backend_host = host; backend_port = port; expires_at = now + ttl_seconds * ticks })
      m

pub clear_session : Text → Sessions → Sessions
clear_session key m = erase key m

abbrev is_live : ℕ → Text × SessionInfo → Bool
is_live now (key, s) = not (leb s.expires_at now)

pub cleanup_expired_sessions : ℕ → Sessions → Sessions
cleanup_expired_sessions now m = keep_if (is_live now) m

pub clear_all_sessions : Sessions → Sessions
clear_all_sessions m = []

pub size : Sessions → ℕ
size m = length m
