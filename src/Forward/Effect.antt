-- ===== src/Forward/Effect.antt =====
-- What a forwarder asks for through its callbacks and the reactor, in order.
use loadbalancer.Base.{ℕ, Bool, Option}

-- `mod_fd fd in out` sets the events EPOLLIN and EPOLLOUT of `fd`.
pub data Effect : Type 0 where
  start_backpressure clear_backpressure close_connection : Option ℕ → Effect
  mod_fd : Option ℕ → Bool → Bool → Effect
