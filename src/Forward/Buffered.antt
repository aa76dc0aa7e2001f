-- ===== src/Forward/Buffered.antt =====
-- src/core/data_forwarder.cpp. The two connections are there and are not the same one.
pub mod Stream
mod Tests
use loadbalancer.Base.{
  ℕ, min, Bool, true, false, not, ◌&&◌, ◌||◌, List, [], ◌∷◌, ◌++◌, length, take, drop, is_empty,
  ltb, nat_eq, if◌then◌else◌,
}
use loadbalancer.Memory.{MemoryBudget}
use loadbalancer.Net.Connection.{
  Connection, is_established, write_available, has_read_space, Sent, write_to_fd,
}
use loadbalancer.Forward.Effect.{
  Effect, start_backpressure, clear_backpressure, close_connection, mod_fd,
}

-- The receiving connection, the budget and the effects come after the sending connection.
pub record Outcome : Type 0 where
  pub from : Connection
  pub to : Connection
  pub budget : MemoryBudget
  pub effects : List Effect

-- The bytes are moved from one buffer to the other.
abbrev pub moved_from : ℕ → Connection → Connection
moved_from n from =
    let rest : Connection = record from { read_buf = drop n from.read_buf } in
    if from.buffer_full && has_read_space rest then record rest { buffer_full = false } else rest

abbrev pub moved_to : ℕ → Connection → Connection → Connection
moved_to n from to = record to { write_buf = to.write_buf ++ take n from.read_buf }

-- Both are watched for writing, and the sender for reading while it has room.
abbrev pub moved_events : Connection → Connection → List Effect
moved_events from to =
    mod_fd to.fd true true
    ∷ mod_fd from.fd (not from.memory_blocked && not from.buffer_full) true
    ∷ []

-- `has_pending_send`; the kernel's own queue is an argument.
abbrev pub has_pending_send : Connection → ℕ → Bool
has_pending_send c pending_kernel = not (is_empty c.write_buf) || ltb 0 pending_kernel

-- What follows the write.
after_send : Connection → ℕ → List Effect → Connection × MemoryBudget × Bool → Outcome
after_send from pending_kernel effects (to, b, true) = record {
  from = from;
  to = to;
  budget = b;
  effects =
      effects
      ++ (if has_pending_send to pending_kernel
          then start_backpressure from.fd
          else clear_backpressure from.fd)
        ∷ [];
}
after_send from pending_kernel effects (to, b, false) = record {
  from = from;
  to = to;
  budget = b;
  effects = effects ++ close_connection to.fd ∷ [];
}

pub forward : (List ℕ → Sent) → ℕ → Connection → Connection → MemoryBudget → Outcome
forward socket pending_kernel from to b =
    let unchanged : List Effect → Outcome =
      λ effects. record { from = from; to = to; budget = b; effects = effects } in
    let to_copy = min (length from.read_buf) (write_available to) in
    if not (is_established from.state && is_established to.state)
    then unchanged []
    else if is_empty from.read_buf
    then unchanged []
    else if nat_eq to_copy 0
    then unchanged (start_backpressure from.fd ∷ mod_fd from.fd false true ∷ [])
    else let from' = moved_from to_copy from in
      let to' = moved_to to_copy from to in
      after_send from' pending_kernel (moved_events from' to) (write_to_fd socket to' b)
