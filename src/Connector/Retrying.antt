-- ===== src/Connector/Retrying.antt =====
-- connect of src/core/backend_connector.cpp through all its retries (src/core/retry_handler.cpp).
use loadbalancer.Base.{
  ℕ, zero, suc, ◌+◌, ◌≤◌, ◌<◌, ◌≡◌, ◌⊎◌, inl, inr, refl, sym, ap, ◌∙◌, subst, some, arith, OnSome,
  Text, find, ℕ_keys, Bool-cases,
}
use loadbalancer.Backend.Float.{Float}
use loadbalancer.Net.Connection.{Connection, close, set_memory_accounting}
use loadbalancer.Pooling.Manager.Ready.{Ready}
use loadbalancer.Timeouts.{max_retry_attempts}
use loadbalancer.Timeouts.Retries.{retry_cases}
use loadbalancer.World.{World}
use loadbalancer.World.Gauges.{increment_backend_routes_failed}
use loadbalancer.Connector.State.{Settings, Balancer, Attempt}
use loadbalancer.Connector.Placement.{IsPlaced}
use loadbalancer.Connector.Ends.{Once, IsDropped, Untouched, IsSound, connect_once-Once}
use loadbalancer.Connector.{
  init_connection, Connected, placed, dropped, retry_asked, undefined, connect_once, connect,
  session_key_found,
}

-- The client is placed at the count it came with or after a retry, of which the third is the last,
-- or dropped.
abbrev pub Ended : ℕ → ℕ → Connection → World → Connected → Type 0
Ended client_fd n c w (placed fd b) =
    (k : ℕ) × (n ≤ k) × ((k ≡ n) ⊎ (k ≤ max_retry_attempts)) × IsPlaced client_fd fd k b.world
Ended client_fd n c w (dropped b) = IsDropped c w b.world
Ended client_fd n c w (retry_asked c' b) = ⊥
Ended client_fd n c w undefined = ⊥

init_connection-init_connection :
    (s : Settings) (c : Connection) → init_connection s (init_connection s c) ≡ init_connection s c
unfolding set_memory_accounting
init_connection-init_connection s c = elim (Bool-cases s.accounts) [
  | inl e ↦ rw e refl
  | inr e ↦ rw e refl
]

-- What a retry ends with, seen from before the call that asked for it.
Ended-retried :
    (client_fd n : ℕ) (c : Connection) (w w' : World) (o : Connected)
    → n < max_retry_attempts
    → Untouched w w'
    → Ended client_fd (n + 1) c w' o
    → Ended client_fd n c w o
Ended-retried client_fd n c w w' (placed fd b) h u (k, g, l, p) =
    (k, omega arith, inr (omega arith), p)
Ended-retried client_fd n c w w' (dropped b) h u d = record {
  connections = d.connections ∙ u.connections;
  budget = d.budget ∙ ap (λ m. (close c m).1) u.budget;
}
Ended-retried client_fd n c w w' (retry_asked c' b) h u d = d
Ended-retried client_fd n c w w' undefined h u d = d

module _ (fl : Float) (s : Settings) (attempts : ℕ → Attempt) (client_fd : ℕ) where
  abbrev Comes : ℕ → ℕ → Text → Connection → Connection → Balancer → World → Type 0
  Comes fuel n key c k b w =
      (o : Connected) × (connect fl s fuel attempts client_fd n key c b ≡ some o)
      × Ended client_fd n k w o

  retry_asked_ends :
      (fuel n : ℕ) (key : Text) (c c' k : Connection) (b b' : Balancer)
      → connect_once fl s (attempts fuel) client_fd n key c b ≡ retry_asked c' b'
      → c' ≡ k
      → Untouched b.world b'.world
      → (n < max_retry_attempts
          → Comes fuel
              (n + 1)
              (session_key_found fl s (find client_fd b'.session_keys))
              c'
              k
              b'
              b'.world)
      → Comes (suc fuel) n key c k b b.world
  unfolding connect
  retry_asked_ends fuel n key c c' k b b' e ck u ih =
      elim (retry_cases c' n b'.world.budget b'.world.metrics) [
        | inl (l, r) ↦
            let (o, q, d) = ih l in
            (o, rw (e, connect) (rw r q), Ended-retried client_fd n k b.world b'.world o l u d)
        | inr r ↦ (
          dropped (record b' {
            world = record (b'.world) {
              budget = (close c' b'.world.budget).1;
              metrics = increment_backend_routes_failed b'.world.metrics;
            };
          }),
          rw (e, connect) (rw r refl),
          record { connections = u.connections; budget = rw ck (ap (λ m. (close k m).1) u.budget) },
        )
      ]

  connect_once_ends :
      (fuel n : ℕ) (key : Text) (c k : Connection) (b : Balancer) (o : Connected)
      → connect_once fl s (attempts fuel) client_fd n key c b ≡ o
      → Once client_fd n k b.world o
      → ((key' : Text) (b' : Balancer)
          → OnSome Ready b'.pools
          → n < max_retry_attempts
          → Comes fuel (n + 1) key' k k b' b'.world)
      → Comes (suc fuel) n key c k b b.world
  unfolding connect
  connect_once_ends fuel n key c k b (placed fd b') e h ih =
      (placed fd b', rw (e, connect) refl, (n, omega arith, inl refl, h))
  connect_once_ends fuel n key c k b (dropped b') e h ih = (dropped b', rw (e, connect) refl, h)
  connect_once_ends fuel n key c k b (retry_asked c' b') e (ck, u, g) ih =
      retry_asked_ends fuel n key c c' k b b' e ck u (λ l.
        subst
          (λ z.
            Comes fuel (n + 1) (session_key_found fl s (find client_fd b'.session_keys)) z k b'
              b'.world)
          (sym ck) (ih (session_key_found fl s (find client_fd b'.session_keys)) b' g l))
  connect_once_ends fuel n key c k b undefined e h ih = elim h [ ]

-- Where no peer of a pooled connection goes away during the call and every connection that waits or is
-- made has its descriptor, `connect` returns once the fuel is positive and, with the retries made so
-- far, exceeds three. The client is then placed, peer of a backend's connection in the tables, at a
-- retry count that is the given one or at most three; or it is dropped, the connections as before and
-- its bytes given back to the budget.
pub connect_ends :
    (fl : Float) (s : Settings) (attempts : ℕ → Attempt) (client_fd fuel n : ℕ) (key : Text)
    (c : Connection) (b : Balancer)
    → ((i : ℕ) → IsSound (attempts i))
    → OnSome Ready b.pools
    → 0 < fuel
    → max_retry_attempts < fuel + n
    → (o : Connected) × (connect fl s fuel attempts client_fd n key c b ≡ some o)
      × Ended client_fd n (init_connection s c) b.world o
connect_ends fl s attempts client_fd zero n key c b k g h l =
    let none_left : ⊥ = omega arith in elim none_left [ ]
connect_ends fl s attempts client_fd (suc fuel) n key c b k g h l =
    connect_once_ends fl s attempts client_fd fuel n key c (init_connection s c) b
      (connect_once fl s (attempts fuel) client_fd n key c b) refl
      (connect_once-Once fl s (attempts fuel) client_fd n key c b (k fuel) g)
      (λ key' b' g' m.
        subst
          (λ z. Comes fl s attempts client_fd fuel (n + 1) key' (init_connection s c) z b' b'.world)
          (init_connection-init_connection s c)
          (connect_ends fl s attempts client_fd fuel (n + 1) key' (init_connection s c) b' k g'
            (omega arith) (omega arith)))
