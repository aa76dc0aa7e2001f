-- ===== src/Memory/Atomic.antt =====
-- The loops of `try_reserve` and `release` around `compare_exchange_weak`, step by step, for any
-- number of threads. A step is one access of `used_bytes_`; the limit is not changed meanwhile.
mod Tests
use loadbalancer.Base.{
  ℕ, ◌+◌, ◌≤◌, ◌<◌, ◌≡◌, refl, sym, ap, subst, Bool, true, false, not, ◌&&◌, ◌||◌, List, [], ◌∷◌,
  ◌++◌, arith, ltb, nat_eq, ◌≢◌, u64, u64_mod, if◌then◌else◌, Bool-cases, inl, inr, if-keeps,
}
use loadbalancer.Memory.{MemoryBudget, try_reserve, release, lowered}

-- What a thread is at: nothing, or the loop with its `n` and the value `cur` that it read last.
pub data Local : Type 0 where
  idle : Local
  reserving : ℕ → ℕ → Local
  releasing : ℕ → ℕ → Local

pub record System : Type 0 where
  pub budget : MemoryBudget
  pub threads : ℕ → Local

-- A call begins with its early returns and the first load; `swap t spurious` is one round of the
-- loop of the thread `t`, whose exchange may fail though the values agree.
pub data Action : Type 0 where
  call_reserve call_release : ℕ → ℕ → Action
  swap : ℕ → Bool → Action

-- What a step commits, if anything: the calls that took effect or were refused, in order.
pub data Commit : Type 0 where
  quiet : Commit
  reserve_done : ℕ → Bool → Commit
  release_done : ℕ → Commit

set_thread : ℕ → Local → System → System
set_thread t l s = record s { threads = λ q. if nat_eq t q then l else s.threads q }

abbrev store : ℕ → System → System
store bytes s = record s { budget = record (s.budget) { used_bytes = bytes } }

-- One round of the loop at `cur`.
round : Local → ℕ → Bool → System → System × Commit
unfolding set_thread
round idle t spurious s = (s, quiet)
round (reserving n cur) t spurious s =
    let used = s.budget.used_bytes in
    if ltb s.budget.limit_bytes (u64 (cur + n))
    then (set_thread t idle s, reserve_done n false)
    else if nat_eq used cur && not spurious
    then (set_thread t idle (store (u64 (cur + n)) s), reserve_done n true)
    else (set_thread t (reserving n used) s, quiet)
round (releasing n cur) t spurious s =
    let used = s.budget.used_bytes in
    if nat_eq used cur && not spurious
    then (set_thread t idle (store (lowered cur n) s), release_done n)
    else (set_thread t (releasing n used) s, quiet)

pub step : System → Action → System × Commit
unfolding round
step s (call_reserve t n) =
    if nat_eq s.budget.limit_bytes 0 || nat_eq n 0
    then (s, reserve_done n true)
    else (set_thread t (reserving n s.budget.used_bytes) s, quiet)
step s (call_release t n) =
    if nat_eq n 0
    then (s, release_done n)
    else (set_thread t (releasing n s.budget.used_bytes) s, quiet)
step s (swap t spurious) = round (s.threads t) t spurious s

pub run : System → List Action → System × List Commit
run s [] = (s, [])
run s (a ∷ rest) = let (s', c) = step s a in let (s'', cs) = run s' rest in (s'', c ∷ cs)

-- A call that waits in its loop has passed its early returns.
abbrev IsSane : ℕ → Local → Type 0
IsSane limit idle = Unit {0}
IsSane limit (reserving n cur) = (limit ≢ 0) × (n ≢ 0)
IsSane limit (releasing n cur) = n ≢ 0

abbrev pub AllSane : System → Type 0
AllSane s = (t : ℕ) → IsSane s.budget.limit_bytes (s.threads t)

-- What a commit does to the budget, by the methods run alone.
abbrev Follows : MemoryBudget → Commit → MemoryBudget → Type 0
Follows b quiet b' = b' ≡ b
Follows b (reserve_done n true) b' = try_reserve n b ≡ (b', true)
Follows b (reserve_done n false) b' = b' ≡ b
Follows b (release_done n) b' = b' ≡ release n b

set_thread-AllSane :
    (t : ℕ) (l : Local) (s : System)
    → AllSane s
    → IsSane s.budget.limit_bytes l
    → AllSane (set_thread t l s)
unfolding set_thread
set_thread-AllSane t l s h k q = elim (Bool-cases (nat_eq t q)) [
  | inl e ↦ rw e k
  | inr e ↦ rw e (h q)
]

-- A step's outcome, seen from the state before it.
abbrev Sound : System → System × Commit → Type 0
Sound s (s', c) = AllSane s' × Follows s.budget c s'.budget

-- At the exchange the value read last is the value that is there.
reserve-Follows :
    (b : MemoryBudget) (n cur : ℕ) (spurious : Bool)
    → (b.limit_bytes ≢ 0) × (n ≢ 0)
    → ltb b.limit_bytes (u64 (cur + n)) ≡ false
    → (nat_eq b.used_bytes cur && not spurious) ≡ true
    → try_reserve n b ≡ (record b { used_bytes = u64 (cur + n) }, true)
unfolding try_reserve
reserve-Follows b n cur spurious k fits hit = ground arith

release-Follows :
    (b : MemoryBudget) (n cur : ℕ) (spurious : Bool)
    → n ≢ 0
    → (nat_eq b.used_bytes cur && not spurious) ≡ true
    → record b { used_bytes = lowered cur n } ≡ release n b
unfolding release
release-Follows b n cur spurious k hit = ground arith

round-Sound :
    (l : Local) (t : ℕ) (spurious : Bool) (s : System)
    → AllSane s
    → IsSane s.budget.limit_bytes l
    → Sound s (round l t spurious s)
unfolding round
round-Sound idle t spurious s h k = (h, refl)
round-Sound (reserving n cur) t spurious s h k =
    if-keeps (Sound s) (ltb s.budget.limit_bytes (u64 (cur + n)))
      (λ over. (set_thread-AllSane t idle s h tt, refl))
      (λ fits.
        if-keeps (Sound s) (nat_eq s.budget.used_bytes cur && not spurious)
          (λ hit. (
            set_thread-AllSane t idle (store (u64 (cur + n)) s) h tt,
            reserve-Follows s.budget n cur spurious k fits hit,
          ))
          (λ miss. (set_thread-AllSane t (reserving n s.budget.used_bytes) s h k, refl)))
round-Sound (releasing n cur) t spurious s h k =
    if-keeps (Sound s) (nat_eq s.budget.used_bytes cur && not spurious)
      (λ hit. (
        set_thread-AllSane t idle (store (lowered cur n) s) h tt,
        release-Follows s.budget n cur spurious k hit,
      ))
      (λ miss. (set_thread-AllSane t (releasing n s.budget.used_bytes) s h k, refl))

step-Sound : (s : System) (a : Action) → AllSane s → Sound s (step s a)
unfolding step
step-Sound s (call_reserve t n) h =
    if-keeps (Sound s) (nat_eq s.budget.limit_bytes 0 || nat_eq n 0)
      (λ e. (h, unfold try_reserve in rw e))
      (λ e. (
        set_thread-AllSane t (reserving n s.budget.used_bytes) s h (ground arith, ground arith),
        refl,
      ))
step-Sound s (call_release t n) h =
    if-keeps (Sound s) (nat_eq n 0) (λ e. (h, unfold release in rw e))
      (λ e. (set_thread-AllSane t (releasing n s.budget.used_bytes) s h (ground arith), refl))
step-Sound s (swap t spurious) h = round-Sound (s.threads t) t spurious s h (h t)

-- The methods run alone, in the order of the commits.
abbrev pub Replays : MemoryBudget → List Commit → MemoryBudget → Type 0
Replays b [] b' = b' ≡ b
Replays b (quiet ∷ cs) b' = Replays b cs b'
Replays b (reserve_done n true ∷ cs) b' =
    ((try_reserve n b).1 ≡ true) × Replays (try_reserve n b).0 cs b'
Replays b (reserve_done n false ∷ cs) b' = Replays b cs b'
Replays b (release_done n ∷ cs) b' = Replays (release n b) cs b'

Replays-cons :
    (b m b' : MemoryBudget) (c : Commit) (cs : List Commit)
    → Follows b c m
    → Replays m cs b'
    → Replays b (c ∷ cs) b'
Replays-cons b m b' quiet cs f r = subst (λ x. Replays x cs b') f r
Replays-cons b m b' (reserve_done n true) cs f r =
    (ap (λ x. x.1) f, subst (λ x. Replays x cs b') (sym (ap (λ x. x.0) f)) r)
Replays-cons b m b' (reserve_done n false) cs f r = subst (λ x. Replays x cs b') f r
Replays-cons b m b' (release_done n) cs f r = subst (λ x. Replays x cs b') f r

-- However the threads interleave and however often an exchange fails, the budget ends as if the
-- calls that took effect had run one after the other, in the order of their exchanges, and each
-- reservation that was granted would have been granted there too. No call is in its loop without
-- having passed its early returns, and the limit is not changed.
pub run-Replays :
    (s : System) (actions : List Action)
    → AllSane s
    → Replays s.budget (run s actions).1 (run s actions).0.budget
unfolding run
run-Replays s [] h = refl
run-Replays s (a ∷ rest) h =
    let sound = step-Sound s a h in
    Replays-cons s.budget (step s a).0.budget _ (step s a).1 (run (step s a).0 rest).1 sound.1
      (run-Replays (step s a).0 rest sound.0)

-- The budget is within its limit.
abbrev pub IsWithin : MemoryBudget → Type 0
IsWithin b = b.used_bytes ≤ b.limit_bytes

Replays-IsWithin :
    (b b' : MemoryBudget) (cs : List Commit) → IsWithin b → Replays b cs b' → IsWithin b'
Replays-IsWithin b b' [] h r = subst IsWithin (sym r) h
Replays-IsWithin b b' (quiet ∷ cs) h r = Replays-IsWithin b b' cs h r
Replays-IsWithin b b' (reserve_done n true ∷ cs) h r =
    Replays-IsWithin (try_reserve n b).0 b' cs (unfold try_reserve in ground arith) r.1
Replays-IsWithin b b' (reserve_done n false ∷ cs) h r = Replays-IsWithin b b' cs h r
Replays-IsWithin b b' (release_done n ∷ cs) h r =
    Replays-IsWithin (release n b) b' cs (unfold release in ground arith) r

-- No interleaving takes the bytes in use past the limit, though a sum may wrap, if they are within it
-- at first and no call is in its loop without having passed its early returns.
pub run-IsWithin :
    (s : System) (actions : List Action)
    → AllSane s
    → IsWithin s.budget
    → IsWithin (run s actions).0.budget
run-IsWithin s actions h k =
    Replays-IsWithin s.budget _ (run s actions).1 k (run-Replays s actions h)
