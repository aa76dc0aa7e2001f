-- ===== src/Memory/Atomic/Tests.antt =====
-- The budget at concrete values, with two threads in their loops.
use loadbalancer.Base.{◌≡◌, refl, true, false, List, [], ◌∷◌, arith}
use loadbalancer.Memory.{MemoryBudget, is_exceeded, set_limit_mb}
use loadbalancer.Memory.Atomic.{
  System, idle, Action, call_reserve, swap, quiet, reserve_done, run, step, round, set_thread,
  Replays, IsWithin, run-Replays, run-IsWithin,
}

abbrev small : MemoryBudget
small = record { used_bytes = 60; limit_bytes = 100 }

abbrev quiet_system : System
quiet_system = record { budget = small; threads = λ t. idle }

-- Thread 1 loads 60, thread 2 reserves 30 first, and thread 1 is refused on its second round.
abbrev race : List Action
race = call_reserve 1 20 ∷ call_reserve 2 30 ∷ swap 2 false ∷ swap 1 false ∷ swap 1 false ∷ []

race-run :
    (run quiet_system race).1
    ≡ quiet ∷ quiet ∷ reserve_done 30 true ∷ quiet ∷ reserve_done 20 false ∷ []
unfolding run step round set_thread
race-run = refl

limit_run : (set_limit_mb 512 small).limit_bytes ≡ 536870912
unfolding set_limit_mb
limit_run = refl

exceeded_run : is_exceeded (record small { used_bytes = 100 }) ≡ true
unfolding is_exceeded
exceeded_run = refl

run-Replays_example : Replays small (run quiet_system race).1 (run quiet_system race).0.budget
run-Replays_example = run-Replays quiet_system race (λ t. tt)

run-IsWithin_example : IsWithin (run quiet_system race).0.budget
run-IsWithin_example = run-IsWithin quiet_system race (λ t. tt) (omega arith)
