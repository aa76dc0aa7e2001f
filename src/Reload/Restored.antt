-- ===== src/Reload/Restored.antt =====
-- The backends that a reload drains, adds and restores (apply_config of src/core/load_balancer.cpp).
use loadbalancer.Base.{
  ℕ, ◌≡◌, ◌⊎◌, inl, inr, refl, subst, true, ◌&&◌, Option, none, some, List, [], ◌∷◌, text_keys,
  text_eq_iff, ◌==◌, nat_eq, nat_eq_iff, All, All-map, All-append, Memᴰ, OnSome, Bool-cases,
  if-keeps,
}
use loadbalancer.Backend.Node.{
  BackendNode, Nodes, healthy, draining, is_draining, set_state, update, new_node,
}
use loadbalancer.Backend.Pool.{BackendPool, has_address, find_backend, remove_backend}
use loadbalancer.Backend.Pool
use loadbalancer.Backend.Pool.Addresses.{find_backend_holds}
use loadbalancer.Reload.{
  BackendConfig, Fleet, is_listed, drain_one, drain_missing, add_missing, add_backend,
  restore_found, restore_all,
}

-- The node is configured, or it takes no new connections.
abbrev pub Fit : List BackendConfig → BackendNode → Type 0
Fit cs n = (is_listed cs n ≡ true) ⊎ (is_draining n.state ≡ true)

abbrev pub AllFit : List BackendConfig → Fleet → Type 0
AllFit cs x = All (λ r. Fit cs (x.nodes r)) x.pool.backends

module _ (cs : List BackendConfig) where
  update-Fit :
      (f : BackendNode → BackendNode) (r q : ℕ) (nodes : Nodes)
      → Fit cs (f (nodes r))
      → Fit cs (nodes q)
      → Fit cs (update r f nodes q)
  unfolding update
  update-Fit f r q nodes h k = if-keeps (Fit cs) (nat_eq r q) (λ e. h) (λ e. k)

  update_own-Fit :
      (f : BackendNode → BackendNode) (r : ℕ) (nodes : Nodes)
      → Fit cs (f (nodes r))
      → Fit cs (update r f nodes r)
  unfolding update
  update_own-Fit f r nodes h = rw ((nat_eq_iff r r).1 refl) h

  drain_one-Fit : (r q : ℕ) (nodes : Nodes) → Fit cs (nodes q) → Fit cs (drain_one cs r nodes q)
  unfolding drain_one set_state
  drain_one-Fit r q nodes h =
      if-keeps (λ (m : Nodes). Fit cs (m q)) (is_listed cs (nodes r)) (λ e. h)
        (λ e.
          if-keeps (λ (m : Nodes). Fit cs (m q)) (is_draining (nodes r).state) (λ f. h)
            (λ f. update-Fit (set_state draining) r q nodes (inr refl) h))

  drain_one_own-Fit : (r : ℕ) (nodes : Nodes) → Fit cs (drain_one cs r nodes r)
  unfolding drain_one set_state update
  drain_one_own-Fit r nodes =
      if-keeps (λ (m : Nodes). Fit cs (m r)) (is_listed cs (nodes r)) (λ e. inl e)
        (λ e.
          if-keeps (λ (m : Nodes). Fit cs (m r)) (is_draining (nodes r).state) (λ f. inr f)
            (λ f. rw ((nat_eq_iff r r).1 refl) (inr refl)))

  drain_missing-Fit :
      (l : List ℕ) (q : ℕ) (nodes : Nodes) → Fit cs (nodes q) → Fit cs (drain_missing cs l nodes q)
  unfolding drain_missing
  drain_missing-Fit [] q nodes h = h
  drain_missing-Fit (r ∷ rs) q nodes h =
      drain_missing-Fit rs q (drain_one cs r nodes) (drain_one-Fit r q nodes h)

  pub drain_missing-AllFit :
      (l : List ℕ) (nodes : Nodes) → All (λ r. Fit cs (drain_missing cs l nodes r)) l
  unfolding drain_missing
  drain_missing-AllFit [] nodes = tt
  drain_missing-AllFit (r ∷ rs) nodes = (
    drain_missing-Fit rs r (drain_one cs r nodes) (drain_one_own-Fit r nodes),
    drain_missing-AllFit rs (drain_one cs r nodes),
  )

-- A node with the address of a configured backend is configured.
is_listed-Memᴰ :
    (cs : List BackendConfig) (c : BackendConfig) (n : BackendNode)
    → Memᴰ c cs
    → (n.host == c.host && nat_eq n.port c.port) ≡ true
    → is_listed cs n ≡ true
is_listed-Memᴰ [] c n m h = elim m [ ]
is_listed-Memᴰ (d ∷ cs) c n (Memᴰ.head e) h =
    let here : (n.host == d.host && nat_eq n.port d.port) ≡ true =
      subst (λ (b : BackendConfig). (n.host == b.host && nat_eq n.port b.port) ≡ true) e h in
    rw here refl
is_listed-Memᴰ (d ∷ cs) c n (Memᴰ.tail m) h =
    let rest : is_listed cs n ≡ true = is_listed-Memᴰ cs c n m h in
    elim (Bool-cases (n.host == d.host && nat_eq n.port d.port)) [
      | inl e ↦ rw e refl
      | inr e ↦ rw e rest
    ]

new_node_address :
    (c : BackendConfig)
    → let n = new_node c.host c.port c.weight in (n.host == c.host && nat_eq n.port c.port) ≡ true
unfolding new_node
new_node_address c = rw ((text_eq_iff c.host c.host).1 refl, (nat_eq_iff c.port c.port).1 refl) refl

module _ (cs : List BackendConfig) (c : BackendConfig) (m : Memᴰ c cs) where
  update-AllFit :
      (f : BackendNode → BackendNode) (r : ℕ) (x : Fleet)
      → Fit cs (f (x.nodes r))
      → AllFit cs x
      → AllFit cs (record x { nodes = update r f x.nodes })
  update-AllFit f r x h k =
      All-map (λ q. Fit cs (x.nodes q)) (λ q. Fit cs (update r f x.nodes q)) x.pool.backends
        (λ q g. update-Fit cs f r q x.nodes h g) k

  add_missing-AllFit : (o : Option ℕ) (x : Fleet) → AllFit cs x → AllFit cs (add_missing c o x)
  unfolding add_missing Pool.add_backend
  add_missing-AllFit (some r) x k = k
  add_missing-AllFit none x k =
      let f : BackendNode → BackendNode = λ n. new_node c.host c.port c.weight in
      let new = is_listed-Memᴰ cs c (new_node c.host c.port c.weight) m (new_node_address c) in
      All-append (λ q. Fit cs (update x.next f x.nodes q)) x.pool.backends (x.next ∷ [])
        (update-AllFit f x.next x (inl new) k) (update_own-Fit cs f x.next x.nodes (inl new), tt)

  restore_found-AllFit :
      (o : Option ℕ) (x : Fleet)
      → OnSome (λ r. has_address x.nodes c.host c.port r ≡ true) o
      → AllFit cs x
      → AllFit cs (restore_found c o x)
  unfolding restore_found add_backend set_state
  restore_found-AllFit none x h k =
      add_missing-AllFit (find_backend x.nodes c.host c.port x.pool) x k
  restore_found-AllFit (some r) x h k =
      if-keeps (AllFit cs) (is_draining (x.nodes r).state)
        (λ e. update-AllFit (set_state healthy) r x (inl (is_listed-Memᴰ cs c (x.nodes r) m h)) k)
        (λ e. k)

module _ (cs : List BackendConfig) where
  pub restore_all-AllFit :
      (ds : List BackendConfig) (x : Fleet)
      → All (λ d. Memᴰ d cs) ds
      → AllFit cs x
      → AllFit cs (restore_all ds x)
  unfolding restore_all
  restore_all-AllFit [] x m k = k
  restore_all-AllFit (d ∷ ds) x m k =
      restore_all-AllFit ds (restore_found d (find_backend x.nodes d.host d.port x.pool) x) m.1 (
        restore_found-AllFit cs d m.0 (find_backend x.nodes d.host d.port x.pool) x
          (find_backend_holds x.nodes d.host d.port x.pool) k)
