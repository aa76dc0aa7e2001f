-- ===== src/Net/Connection/Accounting.antt =====
-- The buffers and the accounting of src/net/connection.cpp.
use loadbalancer.Base.{
  ℕ, ◌+◌, ◌-◌, ◌≤◌, ◌<◌, ◌≡◌, refl, Bool, true, false, List, [], length, length-append, drop,
  length-drop, is_empty, arith, leb, u64, u64_mod, if◌then◌else◌, if-keeps,
}
use loadbalancer.Memory.{MemoryBudget, try_reserve, release}
use loadbalancer.Net.Connection.{
  Connection, max_buffer_size, Received, received, try_later, ended, after_read, read_from_fd, Sent,
  wrote, blocked, broken, after_write, write_to_fd, close,
}

-- The bytes that a connection holds of the budget.
abbrev pub held : Connection → ℕ
held c = if c.accounted then length c.read_buf + length c.write_buf else 0

-- A budget with a limit, room for one more buffer below 2 ^ 64, and the connection's bytes counted.
pub record IsCounted (c : Connection) (b : MemoryBudget) : Type 0 where
  pub limited : 0 < b.limit_bytes
  pub room : b.limit_bytes + max_buffer_size < u64_mod
  pub within : b.used_bytes ≤ b.limit_bytes
  pub counted : held c ≤ b.used_bytes

-- The budget moved by as much as what is held, from `h` to `h'`.
pub record Balances (h : ℕ) (b : MemoryBudget) (h' : ℕ) (b' : MemoryBudget) : Type 0 where
  pub balance : b'.used_bytes + h ≡ b.used_bytes + h'
  pub same_limit : b'.limit_bytes ≡ b.limit_bytes
  pub still_within : b'.used_bytes ≤ b'.limit_bytes

-- The kernel gives at most as many bytes as it was asked for.
abbrev pub AtMost : ℕ → Received → Type 0
AtMost n (received bs) = length bs ≤ n
AtMost n try_later = Unit {0}
AtMost n ended = Unit {0}

release-Balances :
    (n : ℕ) (b : MemoryBudget)
    → n ≤ b.used_bytes
    → release n b ≡ record b { used_bytes = b.used_bytes - n }
unfolding release
release-Balances n b h = ground arith

-- The budget while a read is under way: the whole room is reserved.
abbrev Reserved : Connection → ℕ → MemoryBudget → MemoryBudget → Type 0
Reserved c room b b' =
    (b'.limit_bytes ≡ b.limit_bytes)
    × (b'.used_bytes ≡ b.used_bytes + (if c.accounted then room else 0))
    × (b'.used_bytes ≤ b.limit_bytes)

after_read-Balances :
    (c : Connection) (room : ℕ) (b b' : MemoryBudget) (r : Received)
    → AtMost room r
    → Reserved c room b b'
    → let (c', b'', more) = after_read c room b' r in Balances (held c) b (held c') b''
unfolding after_read release
after_read-Balances c room b b' (received bs) h k = ground (arith, length-append c.read_buf bs)
after_read-Balances c room b b' try_later h k = ground arith
after_read-Balances c room b b' ended h k = ground arith

-- A reservation that is granted is counted, and one that is refused changes nothing.
reserve-Reserved :
    (c : Connection) (n : ℕ) (b : MemoryBudget)
    → IsCounted c b
    → n ≤ max_buffer_size
    → c.accounted ≡ true
    → (try_reserve n b).1 ≡ true
    → Reserved c n b (try_reserve n b).0
unfolding try_reserve
reserve-Reserved c n b k h a e = ground arith

refused-same : (n : ℕ) (b : MemoryBudget) → (try_reserve n b).1 ≡ false → (try_reserve n b).0 ≡ b
unfolding try_reserve
refused-same n b e = ground arith

-- On every branch a read keeps the balance, where the budget has a limit that is kept and counts what
-- the connection holds, and the kernel gives no more bytes than it is asked for.
pub read_from_fd-Balances :
    (socket : ℕ → Received) (c : Connection) (b : MemoryBudget)
    → IsCounted c b
    → AtMost (max_buffer_size - length c.read_buf) (socket (max_buffer_size - length c.read_buf))
    → let r = read_from_fd socket c b in Balances (held c) b (held r.0) r.1
unfolding read_from_fd
read_from_fd-Balances socket c b k h =
    let room = max_buffer_size - length c.read_buf in
    let c' : Connection = record c { buffer_full = false } in
    let P = λ (r : Connection × MemoryBudget × Bool). Balances (held c) b (held r.0) r.1 in
    if-keeps P (leb max_buffer_size (length c.read_buf)) (λ full. ground arith)
      (λ space.
        if-keeps P c.accounted
          (λ a.
            if-keeps P (try_reserve room b).1
              (λ e.
                after_read-Balances c' room b (try_reserve room b).0 (socket room) h
                  (reserve-Reserved c room b k (omega arith) a e))
              (λ e. rw (refused-same room b e) (ground arith)))
          (λ a. after_read-Balances c' room b b (socket room) h (ground arith)))

-- The kernel takes at most as many bytes as it was offered.
abbrev pub Takes : ℕ → Sent → Type 0
Takes n (wrote k) = k ≤ n
Takes n blocked = Unit {0}
Takes n broken = Unit {0}

after_write-Balances :
    (c : Connection) (b : MemoryBudget) (s : Sent)
    → IsCounted c b
    → Takes (length c.write_buf) s
    → let r = after_write c b s in Balances (held c) b (held r.0) r.1
unfolding after_write release
after_write-Balances c b (wrote n) k h = ground (arith, length-drop n c.write_buf)
after_write-Balances c b blocked k h = ground arith
after_write-Balances c b broken k h = ground arith

-- On every branch a write keeps the balance, where the budget has a limit that is kept and counts what
-- the connection holds, and the kernel takes no more bytes than it is offered.
pub write_to_fd-Balances :
    (socket : List ℕ → Sent) (c : Connection) (b : MemoryBudget)
    → IsCounted c b
    → Takes (length c.write_buf) (socket c.write_buf)
    → let r = write_to_fd socket c b in Balances (held c) b (held r.0) r.1
unfolding write_to_fd
write_to_fd-Balances socket c b k h =
    if-keeps (λ (r : Connection × MemoryBudget × Bool). Balances (held c) b (held r.0) r.1)
      (is_empty c.write_buf) (λ e. ground arith)
      (λ e. after_write-Balances c b (socket c.write_buf) k h)

-- A connection that is closed has given back all that it held.
pub close-Balances :
    (c : Connection) (b : MemoryBudget)
    → IsCounted c b
    → let r = close c b in
      Balances (held c) b 0 r.1 × (held r.0 ≡ 0) × (r.0.read_buf ≡ []) × (r.0.write_buf ≡ [])
unfolding close release
close-Balances c b k = (ground arith, refl, refl, refl)

after_read_bounded :
    (c : Connection) (room : ℕ) (b : MemoryBudget) (r : Received)
    → length c.read_buf + room ≤ max_buffer_size
    → AtMost room r
    → length (after_read c room b r).0.read_buf ≤ max_buffer_size
unfolding after_read
after_read_bounded c room b (received bs) k h = omega (arith, length-append c.read_buf bs)
after_read_bounded c room b try_later k h = omega arith
after_read_bounded c room b ended k h = omega arith

-- A read never takes the buffer past its size, if it is within it before and the socket gives no more
-- bytes than it is asked for.
pub read_from_fd_bounded :
    (socket : ℕ → Received) (c : Connection) (b : MemoryBudget)
    → length c.read_buf ≤ max_buffer_size
    → AtMost (max_buffer_size - length c.read_buf) (socket (max_buffer_size - length c.read_buf))
    → length (read_from_fd socket c b).0.read_buf ≤ max_buffer_size
unfolding read_from_fd
read_from_fd_bounded socket c b k h =
    let room = max_buffer_size - length c.read_buf in
    let c' : Connection = record c { buffer_full = false } in
    let P = λ (r : Connection × MemoryBudget × Bool). length r.0.read_buf ≤ max_buffer_size in
    let read = λ (b' : MemoryBudget). after_read_bounded c' room b' (socket room) (omega arith) h in
    if-keeps P (leb max_buffer_size (length c.read_buf)) (λ full. k)
      (λ space.
        if-keeps P c.accounted
          (λ a. if-keeps P (try_reserve room b).1 (λ e. read (try_reserve room b).0) (λ e. k))
          (λ a. read b))

-- What a write does to the buffer: its first `k` bytes are gone, and counted.
abbrev pub Wrote : Connection → Connection → ℕ → Type 0
Wrote c c' k =
    (k ≤ length c.write_buf)
    × (c'.write_buf ≡ drop k c.write_buf)
    × (c'.bytes_written ≡ u64 (c.bytes_written + k))

Wrote-none : (c : Connection) → c.bytes_written < u64_mod → Wrote c c 0
Wrote-none c w = (omega arith, refl, omega arith)

after_write-Wrote :
    (c : Connection) (b : MemoryBudget) (s : Sent)
    → c.bytes_written < u64_mod
    → Takes (length c.write_buf) s
    → (k : ℕ) × Wrote c (after_write c b s).0 k
unfolding after_write
after_write-Wrote c b (wrote n) w h = (n, (h, refl, refl))
after_write-Wrote c b blocked w h = (0, Wrote-none c w)
after_write-Wrote c b broken w h = (0, Wrote-none c w)

pub write_to_fd-Wrote :
    (socket : List ℕ → Sent) (c : Connection) (b : MemoryBudget)
    → c.bytes_written < u64_mod
    → Takes (length c.write_buf) (socket c.write_buf)
    → (k : ℕ) × Wrote c (write_to_fd socket c b).0 k
unfolding write_to_fd
write_to_fd-Wrote socket c b w h =
    if-keeps (λ (r : Connection × MemoryBudget × Bool). (k : ℕ) × Wrote c r.0 k)
      (is_empty c.write_buf) (λ e. (0, Wrote-none c w))
      (λ e. after_write-Wrote c b (socket c.write_buf) w h)
