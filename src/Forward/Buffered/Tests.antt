-- ===== src/Forward/Buffered/Tests.antt =====
-- Bytes forwarded from one connection to another.
use loadbalancer.Base.{ℕ, ◌+◌, ◌≤◌, ◌≡◌, refl, List, length, arith, bytes, min}
use loadbalancer.Memory.{MemoryBudget}
use loadbalancer.Net.Connection.{Connection, new_connection, set_memory_accounting, Sent, wrote}
use loadbalancer.Net.Connection.Accounting.{held, Balances, Takes}
use loadbalancer.Forward.Buffered.{forward}
use loadbalancer.Forward.Buffered.Stream.{
  delivered, Delivered, forward-Delivered, forward_bounded, forward-Balances,
}

abbrev client : Connection
unfolding new_connection set_memory_accounting
client = record (set_memory_accounting (new_connection 7)) { read_buf = bytes "GET" }

abbrev backend : Connection
unfolding new_connection set_memory_accounting
backend = record (set_memory_accounting (new_connection 8)) { write_buf = bytes "xy" }

abbrev budget : MemoryBudget
budget = record { used_bytes = 5; limit_bytes = 70000 }

-- The kernel takes at most four bytes.
abbrev up_to_four : List ℕ → Sent
up_to_four bs = wrote (min 4 (length bs))

up_to_four-Takes : (bs : List ℕ) → Takes (length bs) (up_to_four bs)
up_to_four-Takes bs = omega arith

-- Of the five bytes that it is offered the kernel takes four.
delivered_run : delivered up_to_four client backend ≡ 4
unfolding new_connection set_memory_accounting
delivered_run = refl

forward-Delivered_example :
    let o = forward up_to_four 0 client backend budget in
    Delivered client backend o.from o.to (delivered up_to_four client backend)
unfolding new_connection set_memory_accounting
forward-Delivered_example =
    forward-Delivered up_to_four 0 client backend budget (omega arith) up_to_four-Takes

forward_bounded_example : length (forward up_to_four 0 client backend budget).to.write_buf ≤ 65536
unfolding new_connection set_memory_accounting
forward_bounded_example =
    forward_bounded up_to_four 0 client backend budget (omega arith) (omega arith) up_to_four-Takes

forward-Balances_example :
    let o = forward up_to_four 0 client backend budget in
    (o.budget.used_bytes + delivered up_to_four client backend ≡ 5)
    × Balances 5 budget (held o.from + held o.to) o.budget
unfolding new_connection set_memory_accounting
forward-Balances_example =
    forward-Balances up_to_four 0 client backend budget refl (omega arith)
      (record {
        limited = omega arith;
        room = omega arith;
        within = omega arith;
        counted = omega arith;
      })
      (omega arith) up_to_four-Takes
