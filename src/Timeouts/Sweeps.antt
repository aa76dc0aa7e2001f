-- ===== src/Timeouts/Sweeps.antt =====
-- check_backpressure_timeouts of src/core/load_balancer.cpp.
use loadbalancer.Base.{
  ℕ, ◌+◌, ◌≤◌, ◌≡◌, ◌≢◌, refl, ap, inl, inr, true, false, some, Option-cases, map, keep_if,
  keep_if-mem, All-get, Memᴰ, le→leb, none, List, [], ◌∷◌, All, nat_eq-false, find, find-erase-none,
  find-erase_self, ℕ_keys,
}
use loadbalancer.World.{World}
use loadbalancer.World.Gauges.{increment_backpressure_timeouts}
use loadbalancer.Net.Connection.{Connection, is_closed}
use loadbalancer.Manager.{PoolRelease, close_connection, get_connection}
use loadbalancer.Manager.Closing.{close_connection_forgets}
use loadbalancer.Manager.Gone.{Fewer, close_connection-Fewer}
use loadbalancer.Manager.Backpressure.{Calmer, close_connection-Calmer}
use loadbalancer.Timeouts.{
  stalled, is_stalled, is_open, erase_stalled, close_stalled, check_backpressure_timeouts,
}

erase_stalled-Calmer : (g : ℕ) (w : World) → Calmer w (erase_stalled g w)
unfolding erase_stalled
erase_stalled-Calmer g w fd h = find-erase-none g fd _ h

close_stalled-Calmer :
    (pool : PoolRelease) (fds : List ℕ) (w : World) → Calmer w (close_stalled pool fds w)
unfolding close_stalled
close_stalled-Calmer pool [] w fd h = h
close_stalled-Calmer pool (g ∷ fds) w fd h =
    let w1 : World = record w { metrics = increment_backpressure_timeouts w.metrics } in
    let w2 : World = close_connection pool g w1 in
    close_stalled-Calmer pool fds (erase_stalled g w2) fd
      (erase_stalled-Calmer g w2 fd (close_connection-Calmer pool g w1 fd h))

abbrev pub IsUntracked : World → ℕ → Type 0
IsUntracked w fd = find fd w.backpressure_times ≡ none

close_stalled_clears :
    (pool : PoolRelease) (fds : List ℕ) (w : World)
    → All (IsUntracked (close_stalled pool fds w)) fds
unfolding close_stalled erase_stalled
close_stalled_clears pool [] w = tt
close_stalled_clears pool (g ∷ fds) w =
    let w1 : World = record w { metrics = increment_backpressure_timeouts w.metrics } in
    let w2 : World = close_connection pool g w1 in
    (
      close_stalled-Calmer pool fds (erase_stalled g w2) g (find-erase_self g _),
      close_stalled_clears pool fds (erase_stalled g w2),
    )

close_stalled-Fewer :
    (pool : PoolRelease) (fds : List ℕ) (w : World) → Fewer w (close_stalled pool fds w)
unfolding close_stalled erase_stalled
close_stalled-Fewer pool [] w fd h = h
close_stalled-Fewer pool (g ∷ fds) w fd h =
    let w1 : World = record w { metrics = increment_backpressure_timeouts w.metrics } in
    let w2 : World = close_connection pool g w1 in
    close_stalled-Fewer pool fds (erase_stalled g w2) fd (close_connection-Fewer pool g w1 fd h)

close_connection_gone :
    (pool : PoolRelease) (fd : ℕ) (w : World)
    → find fd (close_connection pool fd w).connections ≡ none
unfolding get_connection
close_connection_gone pool fd w = elim (Option-cases (find fd w.connections)) [
  | inl e ↦ close_connection-Fewer pool fd w fd e
  | inr (c, e) ↦ (close_connection_forgets pool fd c w e).1
]

close_stalled_gone :
    (pool : PoolRelease) (fds : List ℕ) (w : World)
    → All (λ fd. find fd (close_stalled pool fds w).connections ≡ none) fds
unfolding close_stalled erase_stalled
close_stalled_gone pool [] w = tt
close_stalled_gone pool (g ∷ fds) w =
    let w1 : World = record w { metrics = increment_backpressure_timeouts w.metrics } in
    let w2 : World = close_connection pool g w1 in
    (
      close_stalled-Fewer pool fds (erase_stalled g w2) g (close_connection_gone pool g w1),
      close_stalled_gone pool fds (erase_stalled g w2),
    )

Memᴰ-first : (l : List (ℕ × ℕ)) (e : ℕ × ℕ) → Memᴰ e l → Memᴰ e.0 (map (λ p. p.0) l)
Memᴰ-first [] e m = elim m [ ]
Memᴰ-first (p ∷ l) e (Memᴰ.head h) = Memᴰ.head (ap (λ (q : ℕ × ℕ). q.0) h)
Memᴰ-first (p ∷ l) e (Memᴰ.tail m) = Memᴰ.tail (Memᴰ-first l e m)

-- An entry that is due belongs to a connection that the sweep finds.
stalled_finds :
    (now limit fd start : ℕ) (c : Connection) (w : World)
    → Memᴰ (fd, start) w.backpressure_times
    → start + limit ≤ now
    → find fd w.connections ≡ some c
    → is_closed c.state ≡ false
    → Memᴰ fd (stalled now limit w)
unfolding stalled is_stalled is_open
stalled_finds now limit fd start c w m due found live =
    let here : is_stalled now limit w (fd, start) ≡ true =
      rw (le→leb (start + limit) now due, found, live) refl in
    Memᴰ-first (keep_if (is_stalled now limit w) w.backpressure_times) (fd, start)
      (keep_if-mem (is_stalled now limit w) (fd, start) m here)

-- With a time limit, a connection that is open and whose backpressure is tracked since the limit or
-- longer is closed by the sweep: afterwards the connections have no entry for it, and neither has the
-- tracking. The sweep starts no tracking and adds no connection: what had no entry before has none
-- after it.
pub check_backpressure_timeouts_closes :
    (pool : PoolRelease) (now limit fd start : ℕ) (c : Connection) (w : World)
    → limit ≢ 0
    → Memᴰ (fd, start) w.backpressure_times
    → start + limit ≤ now
    → find fd w.connections ≡ some c
    → is_closed c.state ≡ false
    → let y = check_backpressure_timeouts pool now limit w in
      (find fd y.connections ≡ none) × IsUntracked y fd × Calmer w y × Fewer w y
unfolding check_backpressure_timeouts
check_backpressure_timeouts_closes pool now limit fd start c w h m due found live =
    let fds = stalled now limit w in
    let y : World = close_stalled pool fds w in
    let at = stalled_finds now limit fd start c w m due found live in
    rw (nat_eq-false limit 0 h) (
      All-get (λ g. find g y.connections ≡ none) fd at (close_stalled_gone pool fds w),
      All-get (IsUntracked y) fd at (close_stalled_clears pool fds w),
      close_stalled-Calmer pool fds w,
      close_stalled-Fewer pool fds w,
    )
