-- ===== src/Net/Connection/Tests.antt =====
-- Connections at concrete values.
use loadbalancer.Base.{ℕ, ◌≤◌, ◌≡◌, refl, true, List, length, arith, bytes}
use loadbalancer.Memory.{MemoryBudget, try_reserve}
use loadbalancer.Net.Connection.{
  Connection, new_connection, set_memory_accounting, Received, received, read_from_fd, after_read,
  Sent, wrote, write_to_fd,
}
use loadbalancer.Net.Connection.Accounting.{read_from_fd_bounded}
use loadbalancer.Net.Connection.Transfer.{
  IsLimited, IsRead, given_of, read_from_fd-IsRead, IsWritten, taken_of, write_to_fd-IsWritten,
}

abbrev client : Connection
unfolding new_connection set_memory_accounting
client = record (set_memory_accounting (new_connection 7)) {
  read_buf = bytes "ab";
  write_buf = bytes "xyz";
}

abbrev budget : MemoryBudget
budget = record { used_bytes = 5; limit_bytes = 70000 }

abbrev tight : MemoryBudget
tight = record { used_bytes = 5; limit_bytes = 600 }

abbrev four_bytes : ℕ → Received
four_bytes n = received (bytes "cdef")

read_run : (read_from_fd four_bytes client budget).0.read_buf ≡ bytes "abcdef"
unfolding read_from_fd after_read try_reserve new_connection set_memory_accounting
read_run = refl

blocked_run : (read_from_fd four_bytes client tight).0.memory_blocked ≡ true
unfolding read_from_fd after_read try_reserve new_connection set_memory_accounting
blocked_run = refl

limited : IsLimited budget
limited = record { limited = omega arith; room = omega arith; within = omega arith }

read_from_fd-IsRead_example :
    let r = read_from_fd four_bytes client budget in
    IsRead client budget (given_of four_bytes client budget) r.0 r.1
unfolding new_connection set_memory_accounting
read_from_fd-IsRead_example =
    read_from_fd-IsRead four_bytes client budget limited (omega arith) (omega arith)

read_from_fd_bounded_example : length (read_from_fd four_bytes client budget).0.read_buf ≤ 65536
unfolding new_connection set_memory_accounting
read_from_fd_bounded_example =
    read_from_fd_bounded four_bytes client budget (omega arith) (omega arith)

abbrev two_taken : List ℕ → Sent
two_taken bs = wrote 2

-- The kernel takes two of three bytes.
taken_run : taken_of two_taken client.write_buf ≡ 2
unfolding new_connection set_memory_accounting
taken_run = refl

write_to_fd-IsWritten_example :
    let r = write_to_fd two_taken client budget in
    IsWritten client budget (taken_of two_taken client.write_buf) r.0 r.1 × (r.2 ≡ true)
unfolding new_connection set_memory_accounting
write_to_fd-IsWritten_example = write_to_fd-IsWritten two_taken client budget (omega arith)
