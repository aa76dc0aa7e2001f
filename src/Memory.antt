-- ===== src/Memory.antt =====
-- src/core/memory_budget.h: the bytes that all connections together may hold in their buffers.
-- The counters are uint64_t. The methods here run with no other thread between; `Atomic` has the
-- compare-and-swap loops and their interleavings.
pub mod Atomic
pub mod Laws
use loadbalancer.Base.{
  ℕ, ◌+◌, ◌-◌, ◌*◌, Bool, true, false, ◌&&◌, ◌||◌, ltb, leb, nat_eq, u64, if◌then◌else◌,
}

pub record MemoryBudget : Type 0 where
  pub used_bytes : ℕ
  pub limit_bytes : ℕ

unfoldable pub set_limit_bytes : ℕ → MemoryBudget → MemoryBudget
set_limit_bytes bytes b = record b { limit_bytes = bytes }

unfoldable pub set_limit_mb : ℕ → MemoryBudget → MemoryBudget
unfolding set_limit_bytes
set_limit_mb mb b = set_limit_bytes (u64 (mb * 1024 * 1024)) b

unfoldable pub is_exceeded : MemoryBudget → Bool
is_exceeded b = ltb 0 b.limit_bytes && leb b.limit_bytes b.used_bytes

-- A limit of 0 stands for no limit: then nothing is counted.
unfoldable pub try_reserve : ℕ → MemoryBudget → MemoryBudget × Bool
try_reserve n b =
    if nat_eq b.limit_bytes 0 || nat_eq n 0
    then (b, true)
    else if ltb b.limit_bytes (u64 (b.used_bytes + n))
    then (b, false)
    else (record b { used_bytes = u64 (b.used_bytes + n) }, true)

abbrev pub lowered : ℕ → ℕ → ℕ
lowered cur n = if ltb n cur then cur - n else 0

unfoldable pub release : ℕ → MemoryBudget → MemoryBudget
release n b = if nat_eq n 0 then b else record b { used_bytes = lowered b.used_bytes n }
