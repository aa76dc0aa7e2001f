-- ===== src/Net/Connection/Room.antt =====
-- Bytes that try_reserve_additional_bytes of src/net/connection.cpp gets.
use loadbalancer.Base.{
  ℕ, ◌+◌, ◌≤◌, ◌<◌, ◌≡◌, ◌⊎◌, inl, inr, refl, Bool, not, true, arith, nat_eq, u64, u64_mod,
  if-keeps,
}
use loadbalancer.Memory.{MemoryBudget, try_reserve}
use loadbalancer.Net.Connection.{Connection, try_reserve_additional_bytes}

-- A budget without a limit, or with room for `n` bytes more below a limit that is a uint64_t.
abbrev pub HasRoom : ℕ → MemoryBudget → Type 0
HasRoom n b = (b.limit_bytes ≡ 0) ⊎ ((b.used_bytes + n ≤ b.limit_bytes) × (b.limit_bytes < u64_mod))

try_reserve_grants : (n : ℕ) (b : MemoryBudget) → HasRoom n b → (try_reserve n b).1 ≡ true
unfolding try_reserve
try_reserve_grants n b (inl e) = ground (arith, e)
try_reserve_grants n b (inr (fits, small)) =
    let exact : u64 (b.used_bytes + n) ≡ b.used_bytes + n = omega arith in ground arith

-- Where the budget has room the bytes are granted, whether the connection is accounted for or not.
pub try_reserve_additional_bytes_grants :
    (n : ℕ) (c : Connection) (b : MemoryBudget)
    → HasRoom n b
    → (try_reserve_additional_bytes n c b).2 ≡ true
unfolding try_reserve_additional_bytes
try_reserve_additional_bytes_grants n c b h =
    let P = λ (r : Connection × MemoryBudget × Bool). r.2 ≡ true in
    if-keeps P (nat_eq n 0) (λ e. refl)
      (λ e. if-keeps P (not c.accounted) (λ f. refl) (λ f. try_reserve_grants n b h))
