-- ===== src/Pooling/Eviction.antt =====
-- evict_expired of src/core/connection_pool.cpp.
use loadbalancer.Base.{
  ℕ, ◌+◌, ◌-◌, ◌≤◌, ◌<◌, ◌≡◌, refl, true, false, not, ◌&&◌, List, [], ◌∷◌, ◌⊎◌, inl, inr, arith,
  length, keep_if, min, Memᴰ, All, All-map, ltb, if◌then◌else◌, if-keeps, is_some,
}
use loadbalancer.Pooling.{
  PoolConfig, PooledConnection, ConnectionPool, is_expired, evict_loop, evict_expired,
}

-- An entry that has its connection and is not in use; every entry of a pool is: a connection that is
-- lent leaves the pool.
abbrev pub IsIdle : PooledConnection → Type 0
IsIdle pc = (pc.in_use ≡ false) × (is_some pc.connection ≡ true)

abbrev pub AllIdle : List PooledConnection → Type 0
AllIdle l = All IsIdle l

abbrev pub expired_count : PoolConfig → ℕ → List PooledConnection → ℕ
expired_count config now l = length (keep_if (is_expired config now) l)

-- Only entries that have expired go, as many as there are, or as many as there are above
-- `min_connections`; and more than those stay only if none that stays has expired.
pub record IsTrimmed (config : PoolConfig) (now : ℕ) (before after : List PooledConnection)
    : Type 0 where
  pub kept : All (λ pc. Memᴰ pc before) after
  pub only_expired : All (λ pc. (is_expired config now pc ≡ true) ⊎ Memᴰ pc after) before
  pub as_many :
      length after + min (expired_count config now before) (length before - config.min_connections)
      ≡ length before
  pub fresh :
      (length after ≤ config.min_connections) ⊎ All (λ pc. is_expired config now pc ≡ false) after

le_or_lt : (a b : ℕ) → (a ≤ b) ⊎ (b < a)
le_or_lt a b = omega arith

keep_if-AllIdle :
    (l : List PooledConnection) → AllIdle l → length (keep_if (λ pc. not pc.in_use) l) ≡ length l
keep_if-AllIdle [] h = refl
keep_if-AllIdle (pc ∷ l) ((h, g), hs) = rw h (rw (keep_if-AllIdle l hs) refl)

module _ (config : PoolConfig) (now : ℕ) where
  pub length-evict_loop :
      (idle : ℕ) (l : List PooledConnection) → length (evict_loop config now idle l) ≤ length l
  unfolding evict_loop
  length-evict_loop idle [] = omega arith
  length-evict_loop idle (pc ∷ l) =
      ground (arith, length-evict_loop idle l, length-evict_loop (idle - 1) l)

  evict_loop_count :
      (idle : ℕ) (l : List PooledConnection)
      → AllIdle l
      → length (evict_loop config now idle l)
          + min (expired_count config now l) (idle - config.min_connections)
        ≡ length l
  unfolding evict_loop
  evict_loop_count idle [] h = omega arith
  evict_loop_count idle (pc ∷ l) ((h, g), hs) =
      ground (arith, evict_loop_count idle l hs, evict_loop_count (idle - 1) l hs)

  evict_loop_kept :
      (idle : ℕ) (l : List PooledConnection) → All (λ pc. Memᴰ pc l) (evict_loop config now idle l)
  unfolding evict_loop
  evict_loop_kept idle [] = _
  evict_loop_kept idle (pc ∷ l) =
      let gone = not pc.in_use && ltb config.min_connections idle && is_expired config now pc in
      let rest = evict_loop config now (if gone then idle - 1 else idle) l in
      let later =
        All-map (λ q. Memᴰ q l) (λ q. Memᴰ q (pc ∷ l)) rest (λ q m. Memᴰ.tail m)
          (evict_loop_kept (if gone then idle - 1 else idle) l) in
      if-keeps (All (λ q. Memᴰ q (pc ∷ l))) gone (λ e. later) (λ e. (Memᴰ.head refl, later))

  evict_loop_only_expired :
      (idle : ℕ) (l : List PooledConnection)
      → All (λ pc. (is_expired config now pc ≡ true) ⊎ Memᴰ pc (evict_loop config now idle l)) l
  unfolding evict_loop
  evict_loop_only_expired idle [] = _
  evict_loop_only_expired idle (pc ∷ l) =
      let Stays = λ (l' : List PooledConnection) (q : PooledConnection).
        (is_expired config now q ≡ true) ⊎ Memᴰ q l' in
      let gone = not pc.in_use && ltb config.min_connections idle && is_expired config now pc in
      let rest = evict_loop config now (if gone then idle - 1 else idle) l in
      let later = evict_loop_only_expired (if gone then idle - 1 else idle) l in
      if-keeps (λ (l' : List PooledConnection). All (Stays l') (pc ∷ l)) gone
        (λ e. (inl (ground (arith, e)), later))
        (λ e. (
          inr (Memᴰ.head refl),
          All-map (Stays rest) (Stays (pc ∷ rest)) l
              (λ q s. elim s [ inl x ↦ inl x | inr m ↦ inr (Memᴰ.tail m) ]) later,
        ))

  evict_loop_fresh :
      (idle : ℕ) (l : List PooledConnection)
      → AllIdle l
      → config.min_connections + length l < idle + length (evict_loop config now idle l)
      → All (λ pc. is_expired config now pc ≡ false) (evict_loop config now idle l)
  unfolding evict_loop
  evict_loop_fresh idle [] h k = _
  evict_loop_fresh idle (pc ∷ l) ((h, g), hs) k = ground (
    arith,
    evict_loop_fresh idle l hs,
    evict_loop_fresh (idle - 1) l hs,
    length-evict_loop idle l,
  )

pub evict_loop-AllIdle :
    (config : PoolConfig) (now idle : ℕ) (l : List PooledConnection)
    → AllIdle l
    → AllIdle (evict_loop config now idle l)
unfolding evict_loop
evict_loop-AllIdle config now idle [] h = _
evict_loop-AllIdle config now idle (pc ∷ l) (h, hs) =
    let gone = not pc.in_use && ltb config.min_connections idle && is_expired config now pc in
    let rest = evict_loop-AllIdle config now (if gone then idle - 1 else idle) l hs in
    if-keeps AllIdle gone (λ e. rest) (λ e. (h, rest))

evict_loop-IsTrimmed :
    (config : PoolConfig) (now : ℕ) (l : List PooledConnection)
    → AllIdle l
    → IsTrimmed config now l (evict_loop config now (length l) l)
evict_loop-IsTrimmed config now l h =
    let l' = evict_loop config now (length l) l in
    record {
      kept = evict_loop_kept config now (length l) l;
      only_expired = evict_loop_only_expired config now (length l) l;
      as_many = evict_loop_count config now (length l) l h;
      fresh = elim (le_or_lt (length l') config.min_connections) [
        | inl k ↦ inl k
        | inr k ↦ inr (evict_loop_fresh config now (length l) l h (omega arith))
      ];
    }

-- Eviction from a pool whose entries are all idle, as they are, adds nothing and takes only entries
-- that have been idle for longer than `max_idle_time_ms`: as many as there are, or as many as the
-- pool has above `min_connections` if that is less. When more than `min_connections` are left, none
-- of those has been idle for so long.
pub evict_expired-IsTrimmed :
    (now : ℕ) (p : ConnectionPool)
    → AllIdle p.connections
    → IsTrimmed p.config now p.connections (evict_expired now p).connections
unfolding evict_expired
evict_expired-IsTrimmed now p h =
    rw (keep_if-AllIdle p.connections h) (evict_loop-IsTrimmed p.config now p.connections h)
