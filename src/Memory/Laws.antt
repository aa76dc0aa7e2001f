-- ===== src/Memory/Laws.antt =====
-- The methods of src/core/memory_budget.h, one call at a time.
use native.Mathlib.Decide.{dec_le}
use loadbalancer.Base.{ℕ, ◌+◌, ◌≤◌, ◌<◌, ◌≡◌, ◌⊎◌, inl, inr, true, false, arith, u64_mod}
use loadbalancer.Memory.{MemoryBudget, try_reserve, release}

-- Reserving is all or nothing, and exact: it is granted just when the sum stays within the limit,
-- and then the sum is what is used; a refusal changes nothing. The limit is set, and `n` more
-- bytes than it do not pass uint64_t.
try_reserve_exact :
    (n : ℕ) (b : MemoryBudget)
    → 0 < b.limit_bytes
    → b.used_bytes ≤ b.limit_bytes
    → b.limit_bytes + n < u64_mod
    → ((b.used_bytes + n ≤ b.limit_bytes)
        × (try_reserve n b ≡ (record b { used_bytes = b.used_bytes + n }, true)))
      ⊎ ((b.limit_bytes < b.used_bytes + n) × (try_reserve n b ≡ (b, false)))
unfolding try_reserve
try_reserve_exact n b pos fits room = elim (dec_le (b.used_bytes + n) b.limit_bytes) [
  | yes h ↦ inl (h, ground arith)
  | no h ↦ inr (omega arith, ground arith)
]

-- Giving back what was just reserved leaves the budget as it was; the limit is set, the reservation was
-- granted, and the sum does not pass uint64_t.
pub release-try_reserve :
    (n : ℕ) (b : MemoryBudget)
    → b.used_bytes + n < u64_mod
    → (try_reserve n b).1 ≡ true
    → 0 < b.limit_bytes
    → release n (try_reserve n b).0 ≡ b
unfolding try_reserve release
release-try_reserve n b room ok pos = ground arith
