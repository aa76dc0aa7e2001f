-- ===== src/Net/Connection/Transfer.antt =====
-- What one read and one write of src/net/connection.cpp move.
use loadbalancer.Base.{
  ℕ, ◌+◌, ◌-◌, ◌≤◌, ◌<◌, ◌≡◌, refl, sym, subst, Bool, true, false, ◌&&◌, not, List, [], ◌++◌,
  length, drop, is_empty, arith, ltb, leb, u64, u64_mod, if◌then◌else◌, if-keeps, Bool-cases, inl,
  inr, ◌||◌,
}
use mathlib.Core.List.{append-nil}
use loadbalancer.Memory.{MemoryBudget, try_reserve, release}
use loadbalancer.Net.Connection.{
  Connection, max_buffer_size, give_back, Received, received, try_later, ended, after_read,
  read_from_fd, Sent, wrote, blocked, broken, after_write, write_to_fd,
}
use loadbalancer.Net.Connection.Accounting.{AtMost, Takes}

-- How many bytes the kernel took by its answer.
abbrev pub taken : Sent → ℕ
taken (wrote n) = n
taken blocked = 0
taken broken = 0

abbrev pub is_broken : Sent → Bool
is_broken (wrote n) = false
is_broken blocked = false
is_broken broken = true

-- The kernel is asked only where there is something to write.
abbrev pub taken_of : (List ℕ → Sent) → List ℕ → ℕ
taken_of socket bs = if is_empty bs then 0 else taken (socket bs)

pub taken-Takes : (n : ℕ) (s : Sent) → Takes n s → taken s ≤ n
taken-Takes n (wrote k) h = h
taken-Takes n blocked h = omega arith
taken-Takes n broken h = omega arith

-- `k` bytes left the front of the buffer, were counted, and went back to the budget.
pub record IsWritten (c : Connection) (b : MemoryBudget) (k : ℕ) (c' : Connection)
    (b' : MemoryBudget) : Type 0 where
  pub left : c'.write_buf ≡ drop k c.write_buf
  pub counted : c'.bytes_written ≡ u64 (c.bytes_written + k)
  pub returned : b'.used_bytes ≡ b.used_bytes - (if c.accounted then k else 0)
  pub same_limit : b'.limit_bytes ≡ b.limit_bytes
  pub same_read : c'.read_buf ≡ c.read_buf

unwritten : (c : Connection) (b : MemoryBudget) → c.bytes_written < u64_mod → IsWritten c b 0 c b
unwritten c b w = record {
  left = refl;
  counted = omega arith;
  returned = ground arith;
  same_limit = refl;
  same_read = refl;
}

give_back_used :
    (c : Connection) (n : ℕ) (b : MemoryBudget)
    → (give_back c n b).used_bytes ≡ b.used_bytes - (if c.accounted then n else 0)
unfolding release
give_back_used c n b = ground arith

give_back_limit :
    (c : Connection) (n : ℕ) (b : MemoryBudget) → (give_back c n b).limit_bytes ≡ b.limit_bytes
unfolding release
give_back_limit c n b = ground arith

after_write-IsWritten :
    (c : Connection) (b : MemoryBudget) (s : Sent)
    → c.bytes_written < u64_mod
    → let r = after_write c b s in IsWritten c b (taken s) r.0 r.1 × (r.2 ≡ not (is_broken s))
unfolding after_write
after_write-IsWritten c b (wrote n) w = (
  record {
    left = refl;
    counted = refl;
    returned = give_back_used c n b;
    same_limit = give_back_limit c n b;
    same_read = refl;
  },
  refl,
)
after_write-IsWritten c b blocked w = (unwritten c b w, refl)
after_write-IsWritten c b broken w = (unwritten c b w, refl)

-- A write takes from the front of the buffer just as many bytes as the kernel took, none where the
-- buffer is empty or the kernel takes nothing; it adds as many to the count of bytes written, modulo
-- 2 ^ 64, and, where the connection is accounted for, gives as many back to the budget, which stops
-- at 0. It fails exactly if the kernel was asked and reports an error. The count is a uint64_t.
pub write_to_fd-IsWritten :
    (socket : List ℕ → Sent) (c : Connection) (b : MemoryBudget)
    → c.bytes_written < u64_mod
    → let r = write_to_fd socket c b in
      IsWritten c b (taken_of socket c.write_buf) r.0 r.1
      × (r.2 ≡ (is_empty c.write_buf || not (is_broken (socket c.write_buf))))
unfolding write_to_fd
write_to_fd-IsWritten socket c b w = elim (Bool-cases (is_empty c.write_buf)) [
  | inl e ↦ rw e (unwritten c b w, refl)
  | inr e ↦ rw e (after_write-IsWritten c b (socket c.write_buf) w)
]

-- The bytes that the kernel gave by its answer.
abbrev pub given : Received → List ℕ
given (received bs) = bs
given try_later = []
given ended = []

abbrev pub read_room : Connection → ℕ
read_room c = max_buffer_size - length c.read_buf

-- The kernel is asked only where the buffer has room and the budget, where there is one, has as much.
abbrev pub may_read : Connection → MemoryBudget → Bool
may_read c b =
    ltb (length c.read_buf) max_buffer_size
    && not (c.accounted && ltb b.limit_bytes (b.used_bytes + read_room c))

abbrev pub given_of : (ℕ → Received) → Connection → MemoryBudget → List ℕ
given_of socket c b = if may_read c b then given (socket (read_room c)) else []

-- A budget with a limit that is kept, and room for one more buffer below 2 ^ 64.
pub record IsLimited (b : MemoryBudget) : Type 0 where
  pub limited : 0 < b.limit_bytes
  pub room : b.limit_bytes + max_buffer_size < u64_mod
  pub within : b.used_bytes ≤ b.limit_bytes

-- `bs` went behind what the buffer held, was counted, and is charged to the budget.
pub record IsRead (c : Connection) (b : MemoryBudget) (bs : List ℕ) (c' : Connection)
    (b' : MemoryBudget) : Type 0 where
  pub gained : c'.read_buf ≡ c.read_buf ++ bs
  pub counted : c'.bytes_read ≡ u64 (c.bytes_read + length bs)
  pub charged : b'.used_bytes ≡ b.used_bytes + (if c.accounted then length bs else 0)
  pub same_limit : b'.limit_bytes ≡ b.limit_bytes
  pub same_write : c'.write_buf ≡ c.write_buf

unread :
    (c : Connection) (b : MemoryBudget) (stopped full : Bool)
    → c.bytes_read < u64_mod
    → IsRead c b [] (record c { memory_blocked = stopped; buffer_full = full }) b
unread c b stopped full w = record {
  gained = sym (append-nil c.read_buf);
  counted = omega arith;
  charged = ground arith;
  same_limit = refl;
  same_write = refl;
}

-- `b0` is the budget while the read is under way.
after_read-IsRead :
    (c : Connection) (room : ℕ) (b b0 : MemoryBudget) (full : Bool) (r : Received)
    → c.bytes_read < u64_mod
    → AtMost room r
    → b0.used_bytes ≡ b.used_bytes + (if c.accounted then room else 0)
    → b0.limit_bytes ≡ b.limit_bytes
    → let o = after_read (record c { buffer_full = full }) room b0 r in IsRead c b (given r) o.0 o.1
unfolding after_read release
after_read-IsRead c room b b0 full (received bs) w h u l = record {
  gained = refl;
  counted = refl;
  charged = ground arith;
  same_limit = ground arith;
  same_write = refl;
}
after_read-IsRead c room b b0 full try_later w h u l = record {
  gained = sym (append-nil c.read_buf);
  counted = omega arith;
  charged = ground arith;
  same_limit = ground arith;
  same_write = refl;
}
after_read-IsRead c room b b0 full ended w h u l = record {
  gained = sym (append-nil c.read_buf);
  counted = omega arith;
  charged = ground arith;
  same_limit = ground arith;
  same_write = refl;
}

-- A reservation of a read is granted where there is room, and then it is counted.
try_reserve_granted :
    (n : ℕ) (b : MemoryBudget)
    → IsLimited b
    → 0 < n
    → n ≤ max_buffer_size
    → (try_reserve n b).1 ≡ true
    → (ltb b.limit_bytes (b.used_bytes + n) ≡ false)
      × (record b { used_bytes = b.used_bytes + n } ≡ (try_reserve n b).0)
unfolding try_reserve
try_reserve_granted n b k p h e =
    let exact : u64 (b.used_bytes + n) ≡ b.used_bytes + n = omega (arith, k.room, k.within) in
    (ground (arith, k.limited), ground (arith, k.limited))

try_reserve_refused :
    (n : ℕ) (b : MemoryBudget)
    → IsLimited b
    → n ≤ max_buffer_size
    → (try_reserve n b).1 ≡ false
    → (ltb b.limit_bytes (b.used_bytes + n) ≡ true) × (b ≡ (try_reserve n b).0)
unfolding try_reserve
try_reserve_refused n b k h e =
    let exact : u64 (b.used_bytes + n) ≡ b.used_bytes + n = omega (arith, k.room, k.within) in
    (ground arith, ground arith)

given_all :
    (socket : ℕ → Received) (c : Connection) (b : MemoryBudget)
    → may_read c b ≡ true
    → given (socket (read_room c)) ≡ given_of socket c b
given_all socket c b h = rw h refl

given_none :
    (socket : ℕ → Received) (c : Connection) (b : MemoryBudget)
    → may_read c b ≡ false
    → [] ≡ given_of socket c b
given_none socket c b h = rw h refl

-- A read puts behind what the buffer holds just the bytes that the kernel gave, none where the buffer
-- is full, where the connection is accounted for and the budget has no room for what would fill the
-- buffer, or where the kernel gives nothing; it adds as many to the count of bytes read, modulo
-- 2 ^ 64, and, where the connection is accounted for, charges as many to the budget. The budget has a limit that is kept and that lies more than a buffer
-- below 2 ^ 64, the count is a uint64_t, and the kernel gives no more bytes than it is asked for.
pub read_from_fd-IsRead :
    (socket : ℕ → Received) (c : Connection) (b : MemoryBudget)
    → IsLimited b
    → c.bytes_read < u64_mod
    → AtMost (read_room c) (socket (read_room c))
    → let r = read_from_fd socket c b in IsRead c b (given_of socket c b) r.0 r.1
unfolding read_from_fd
read_from_fd-IsRead socket c b k w h =
    let room = read_room c in
    let P = λ (r : Connection × MemoryBudget × Bool). IsRead c b (given_of socket c b) r.0 r.1 in
    let quiet = λ (full : Bool) (stopped : Bool) (z : may_read c b ≡ false).
      subst (λ bs. IsRead c b bs (record c { memory_blocked = stopped; buffer_full = full }) b)
        (given_none socket c b z) (unread c b stopped full w) in
    let all =
      λ (b0 : MemoryBudget) (z : may_read c b ≡ true)
          (u : b0.used_bytes ≡ b.used_bytes + (if c.accounted then room else 0))
          (l : b0.limit_bytes ≡ b.limit_bytes).
        let o = after_read (record c { buffer_full = false }) room b0 (socket room) in
        subst (λ bs. IsRead c b bs o.0 o.1) (given_all socket c b z)
          (after_read-IsRead c room b b0 false (socket room) w h u l) in
    if-keeps P (leb max_buffer_size (length c.read_buf))
      (λ e. quiet true c.memory_blocked (ground arith))
      (λ e.
        let some_room : 0 < room = ground arith in
        if-keeps P c.accounted
          (λ a.
            if-keeps P (try_reserve room b).1
              (λ g.
                let t = try_reserve_granted room b k some_room (omega arith) g in
                all (try_reserve room b).0 (ground arith) (rw (← t.1, a) refl) (rw (← t.1) refl))
              (λ g.
                let t = try_reserve_refused room b k (omega arith) g in
                subst
                  (λ b0.
                    IsRead c b (given_of socket c b)
                      (record c { memory_blocked = true; buffer_full = false }) b0)
                  t.1 (quiet false true (ground arith))))
          (λ a. all b (ground arith) (ground arith) refl))
