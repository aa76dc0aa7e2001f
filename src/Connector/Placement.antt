-- ===== src/Connector/Placement.antt =====
-- The tables after `connect` of src/core/backend_connector.cpp has placed a client.
use loadbalancer.Base.{
  ℕ, ◌≡◌, ◌⊎◌, inl, inr, refl, ◌∙◌, some, Map, find, assign, find-assign, find-assign_self, nat_eq,
  nat_eq_iff, ℕ_keys, Bool-cases,
}
use loadbalancer.Net.Connection.{Connection}
use loadbalancer.World.{World}
use loadbalancer.Connector.{enter}

-- The two connections are peers, and every table knows the backend's descriptor.
pub record IsPlaced (client_fd backend_fd retry_count : ℕ) (w : World) : Type 0 where
  pub client :
      (backend_fd ≡ client_fd)
      ⊎ ((c : Connection) × (find client_fd w.connections ≡ some c) × (c.peer ≡ some backend_fd))
  pub backend :
      (c : Connection) × (find backend_fd w.connections ≡ some c) × (c.peer ≡ some client_fd)
  pub node : (r : ℕ) × (find backend_fd w.backend_connections ≡ some r)
  pub time : (t : ℕ) × (find backend_fd w.connection_times ≡ some t)
  pub back : find backend_fd w.backend_to_client ≡ some client_fd
  pub retries : find client_fd w.client_retry_counts ≡ some retry_count

find-assign_other :
    {V : Type 0} (k j : ℕ) (v u : V) (m : Map ℕ V)
    → find j m ≡ some u
    → (k ≡ j) ⊎ (find j (assign k v m) ≡ some u)
find-assign_other k j v u m h = elim (Bool-cases (nat_eq k j)) [
  | inl e ↦ inl ((nat_eq_iff k j).0 e)
  | inr e ↦ inr (find-assign k j v m ∙ rw e h)
]

pub enter-IsPlaced :
    (client_fd : ℕ) (client : Connection) (backend_fd : ℕ) (backend : Connection)
    (r retry_count now : ℕ) (w : World)
    → IsPlaced client_fd backend_fd retry_count
        (enter client_fd client backend_fd backend r retry_count now w)
unfolding enter
enter-IsPlaced client_fd client backend_fd backend r retry_count now w =
    let c : Connection = record client { peer = some backend_fd } in
    let k : Connection = record backend { peer = some client_fd } in
    let conns = assign client_fd c w.connections in
    record {
      client =
          elim (find-assign_other backend_fd client_fd k c conns
            (find-assign_self client_fd c w.connections)) [
              | inl e ↦ inl e
              | inr e ↦ inr (c, e, refl)
            ];
      backend = (k, find-assign_self backend_fd k conns, refl);
      node = (r, find-assign_self backend_fd r w.backend_connections);
      time = (now, find-assign_self backend_fd now w.connection_times);
      back = find-assign_self backend_fd client_fd w.backend_to_client;
      retries = find-assign_self client_fd retry_count w.client_retry_counts;
    }
