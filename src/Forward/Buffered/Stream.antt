-- ===== src/Forward/Buffered/Stream.antt =====
-- The bytes that DataForwarder::forward of src/core/data_forwarder.cpp moves.
use mathlib.Core.List.{append_assoc}
use loadbalancer.Base.{
  ℕ, ◌+◌, ◌≤◌, ◌<◌, ◌≡◌, refl, sym, ap, ◌∙◌, min, Bool, true, false, not, ◌&&◌, List, [], ◌∷◌, ◌-◌,
  ◌++◌, arith, length, take, drop, length-append, length-take, length-drop, drop-append-le,
  take-append-drop, is_empty, is_empty_iff, subst, if◌then◌else◌, nat_eq, u64, u64_mod, if-keeps,
}
use loadbalancer.Memory.{MemoryBudget}
use loadbalancer.Net.Connection.{
  Connection, is_established, max_buffer_size, write_available, has_read_space, Sent, write_to_fd,
}
use loadbalancer.Net.Connection.Accounting.{
  held, Takes, write_to_fd-Wrote, IsCounted, Balances, write_to_fd-Balances,
}
use loadbalancer.Net.Connection.Transfer.{taken, taken_of, taken-Takes, write_to_fd-IsWritten}
use loadbalancer.Forward.Effect.{Effect}
use loadbalancer.Forward.Buffered.{Outcome, moved_from, moved_to, moved_events, after_send, forward}

-- The bytes on their way: those to be written, then those read.
abbrev pub stream : Connection → Connection → List ℕ
stream from to = to.write_buf ++ from.read_buf

-- `forward` has bytes to move and room for them.
abbrev pub to_move : Connection → Connection → ℕ
to_move from to = min (length from.read_buf) (write_available to)

abbrev pub moves : Connection → Connection → Bool
moves from to =
    is_established from.state && is_established to.state && not (nat_eq (to_move from to) 0)

-- The kernel is offered what waits to be written, with the bytes that are moved there, and takes so
-- many of them.
abbrev pub offered : Connection → Connection → List ℕ
offered from to = to.write_buf ++ take (to_move from to) from.read_buf

abbrev pub delivered : (List ℕ → Sent) → Connection → Connection → ℕ
delivered socket from to = if moves from to then taken (socket (offered from to)) else 0

-- The stream has lost its first `k` bytes, which are counted.
abbrev pub Delivered : Connection → Connection → Connection → Connection → ℕ → Type 0
Delivered from to from' to' k =
    (stream from' to' ≡ drop k (stream from to)) × (to'.bytes_written ≡ u64 (to.bytes_written + k))

moved-stream :
    (n : ℕ) (from to : Connection)
    → (moved_to n from to).write_buf ++ drop n from.read_buf ≡ stream from to
moved-stream n from to =
    append_assoc to.write_buf (take n from.read_buf) (drop n from.read_buf)
    ∙ ap (◌++◌ to.write_buf) (take-append-drop n from.read_buf)

moved_from-read_buf :
    (n : ℕ) (from : Connection) → (moved_from n from).read_buf ≡ drop n from.read_buf
moved_from-read_buf n from =
    let rest : Connection = record from { read_buf = drop n from.read_buf } in
    if-keeps (λ (c : Connection). c.read_buf ≡ drop n from.read_buf)
      (from.buffer_full && has_read_space rest) (λ e. refl) (λ e. refl)

after_send_ends :
    (from : Connection) (pending : ℕ) (effects : List Effect) (r : Connection × MemoryBudget × Bool)
    → let o = after_send from pending effects r in (o.from ≡ from) × (o.to ≡ r.0) × (o.budget ≡ r.1)
unfolding after_send
after_send_ends from pending effects (to, b, true) = (refl, refl, refl)
after_send_ends from pending effects (to, b, false) = (refl, refl, refl)

sent-Delivered :
    (n : ℕ) (from to to' : Connection) {k : ℕ}
    → k ≤ length (moved_to n from to).write_buf
    → to'.write_buf ≡ drop k (moved_to n from to).write_buf
    → to'.bytes_written ≡ u64 (to.bytes_written + k)
    → Delivered from to (moved_from n from) to' k
sent-Delivered n from to to' {k} fits left count = (
  rw (left, moved_from-read_buf n from)
      (sym (drop-append-le k (moved_to n from to).write_buf (drop n from.read_buf) fits)
        ∙ ap (drop k) (moved-stream n from to)),
  count,
)

abbrev untouched : Connection → Connection → MemoryBudget → List Effect → Outcome
untouched from to b effects = record { from = from; to = to; budget = b; effects = effects }

-- `forward` leaves the two connections alone, or moves `n` bytes and writes.
forward_cases {ℓ} :
    (P : Outcome → Type ℓ) (socket : List ℕ → Sent) (pending : ℕ) (from to : Connection)
    (b : MemoryBudget)
    → (moves from to ≡ false → (effects : List Effect) → P (untouched from to b effects))
    → (let n = to_move from to in
        moves from to ≡ true
        → P (
            after_send
              (moved_from n from)
              pending
              (moved_events (moved_from n from) to)
              (write_to_fd socket (moved_to n from to) b)))
    → P (forward socket pending from to b)
unfolding forward
forward_cases P socket pending from to b same moved =
    if-keeps P (not (is_established from.state && is_established to.state))
      (λ e. same (ground arith) _)
      (λ e.
        if-keeps P (is_empty from.read_buf)
          (λ f. same (ground (arith, (is_empty_iff from.read_buf).0 f)) _)
          (λ f.
            if-keeps P (nat_eq (to_move from to) 0) (λ g. same (ground arith) _)
              (λ g. moved (ground arith))))

not_empty {ℓ} : {A : Type ℓ} (l : List A) → 0 < length l → is_empty l ≡ false
not_empty [] h = ground (arith, h)
not_empty (x ∷ l) h = refl

still-delivered :
    (socket : List ℕ → Sent) (from to : Connection)
    → moves from to ≡ false
    → 0 ≡ delivered socket from to
still-delivered socket from to h = rw h refl

-- Where bytes are moved the kernel is asked.
offered-delivered :
    (socket : List ℕ → Sent) (from to : Connection)
    → moves from to ≡ true
    → taken_of socket (offered from to) ≡ delivered socket from to
offered-delivered socket from to h =
    let some_bytes : is_empty (offered from to) ≡ false = not_empty (offered from to) (
      ground (
        arith,
        length-append to.write_buf (take (to_move from to) from.read_buf),
        length-take (to_move from to) from.read_buf,
      )) in
    rw (h, some_bytes) refl

taken_of-Takes :
    (socket : List ℕ → Sent) (bs : List ℕ)
    → ((cs : List ℕ) → Takes (length cs) (socket cs))
    → taken_of socket bs ≤ length bs
taken_of-Takes socket bs h =
    if-keeps (λ (k : ℕ). k ≤ length bs) (is_empty bs) (λ e. omega arith)
      (λ e. taken-Takes (length bs) (socket bs) (h bs))

-- Whatever the states of the connections, the room in the buffer and the answer of the kernel, the
-- bytes that wait in the two buffers afterwards are those that waited before, in their order, less as
-- many at the front as the kernel took, and the connection has counted as many more, modulo 2 ^ 64.
-- The kernel took what it answers to the write buffer with the bytes that are moved behind it, if both
-- connections are established, there are bytes to move and there is room for them; else it took none.
-- It takes no more than it is offered, and the count is a uint64_t.
pub forward-Delivered :
    (socket : List ℕ → Sent) (pending : ℕ) (from to : Connection) (b : MemoryBudget)
    → to.bytes_written < u64_mod
    → ((bs : List ℕ) → Takes (length bs) (socket bs))
    → let o = forward socket pending from to b in
      Delivered from to o.from o.to (delivered socket from to)
forward-Delivered socket pending from to b w h =
    let n = to_move from to in
    let from' = moved_from n from in
    let to' = moved_to n from to in
    let written = (write_to_fd-IsWritten socket to' b w).0 in
    let ends = after_send_ends from' pending (moved_events from' to) (write_to_fd socket to' b) in
    forward_cases (λ o. Delivered from to o.from o.to (delivered socket from to)) socket pending
      from to b
      (λ e effects.
        subst (Delivered from to from to) (still-delivered socket from to e) (refl, omega arith))
      (λ e.
        rw (ends.0, ends.1, ← offered-delivered socket from to e)
          (sent-Delivered n from to (write_to_fd socket to' b).0
            (taken_of-Takes socket to'.write_buf h) written.left written.counted))

-- The buffer that is written to stays within its size, if the kernel takes no more than it is
-- offered.
pub forward_bounded :
    (socket : List ℕ → Sent) (pending : ℕ) (from to : Connection) (b : MemoryBudget)
    → to.bytes_written < u64_mod
    → length to.write_buf ≤ max_buffer_size
    → ((bs : List ℕ) → Takes (length bs) (socket bs))
    → length (forward socket pending from to b).to.write_buf ≤ max_buffer_size
forward_bounded socket pending from to b w small h =
    let n = min (length from.read_buf) (write_available to) in
    let from' = moved_from n from in
    let to' = moved_to n from to in
    let (k, sent) = write_to_fd-Wrote socket to' b w (h to'.write_buf) in
    let ends = after_send_ends from' pending (moved_events from' to) (write_to_fd socket to' b) in
    forward_cases (λ o. length o.to.write_buf ≤ max_buffer_size) socket pending from to b
      (λ e effects. small)
      (λ e.
        rw (ends.1, sent.1)
          (omega (
            arith,
            length-drop k to'.write_buf,
            length-append to.write_buf (take n from.read_buf),
            length-take n from.read_buf,
          )))

moved-held :
    (n : ℕ) (from to : Connection)
    → from.accounted ≡ to.accounted
    → held (moved_from n from) + held (moved_to n from to) ≡ held from + held to
moved-held n from to e = ground (
  arith,
  length-append to.write_buf (take n from.read_buf),
  length-take n from.read_buf,
  length-drop n from.read_buf,
)

give_back_exact :
    (a : Bool) (m l : ℕ) {k used used' : ℕ}
    → used' ≡ used - (if a then k else 0)
    → k ≤ l
    → (if a then m + l else 0) ≤ used
    → used' + (if a then k else 0) ≡ used
give_back_exact true m l e h u = omega arith
give_back_exact false m l e h u = omega arith

-- Forwarding gives back to the budget just the bytes that the kernel took, where the connections are
-- accounted for, and keeps the balance: what the two connections hold together and what the budget
-- counts fall by the same amount. Both are accounted for, or neither; the budget has a limit that is
-- kept and that lies more than a buffer below 2 ^ 64, and counts what the two hold; the count of bytes
-- written is a uint64_t; and the kernel takes no more than it is offered.
pub forward-Balances :
    (socket : List ℕ → Sent) (pending : ℕ) (from to : Connection) (b : MemoryBudget)
    → from.accounted ≡ to.accounted
    → held from + held to ≤ b.used_bytes
    → IsCounted to b
    → to.bytes_written < u64_mod
    → ((bs : List ℕ) → Takes (length bs) (socket bs))
    → let o = forward socket pending from to b in
      (o.budget.used_bytes + (if to.accounted then delivered socket from to else 0) ≡ b.used_bytes)
      × Balances (held from + held to) b (held o.from + held o.to) o.budget
forward-Balances socket pending from to b same both k w h =
    let n = to_move from to in
    let from' = moved_from n from in
    let to' = moved_to n from to in
    let total = moved-held n from to same in
    let counted : IsCounted to' b = record {
      limited = k.limited;
      room = k.room;
      within = k.within;
      counted = omega (arith, total);
    } in
    let balanced = write_to_fd-Balances socket to' b counted (h to'.write_buf) in
    let written = (write_to_fd-IsWritten socket to' b w).0 in
    let fits = taken_of-Takes socket to'.write_buf h in
    let ends = after_send_ends from' pending (moved_events from' to) (write_to_fd socket to' b) in
    forward_cases
      (λ o.
        (o.budget.used_bytes + (if to.accounted then delivered socket from to else 0)
          ≡ b.used_bytes)
        × Balances (held from + held to) b (held o.from + held o.to) o.budget)
      socket pending from to b
      (λ e effects. (ground (arith, still-delivered socket from to e), omega arith))
      (λ e.
        rw (ends.0, ends.1, ends.2)
          (
            rw (← offered-delivered socket from to e) (
                give_back_exact to.accounted (length to.read_buf) (length to'.write_buf)
                  written.returned fits counted.counted),
            omega (arith, total, balanced),
          ))
