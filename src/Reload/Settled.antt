-- ===== src/Reload/Settled.antt =====
-- The backends of the pool after a reload (apply_config and cleanup_drained_backends of
-- src/core/load_balancer.cpp).
use loadbalancer.Base.{
  ℕ, ◌≡◌, ◌⊎◌, inl, inr, refl, sym, subst, Bool, true, false, not, List, [], ◌∷◌, text_keys,
  text_eq_iff, nat_eq, nat_eq_iff, All, All-map, All-Memᴰ, All-get, Memᴰ, keep_if, keep_if-All-both,
  if-keeps,
}
use loadbalancer.Backend.Node.{BackendNode, Nodes, is_draining}
use loadbalancer.Backend.Pool.{has_address, remove_backend}
use loadbalancer.Reload.{
  BackendConfig, Fleet, is_listed, drain_missing, restore_all, is_drained, remove_drained,
  cleanup_loop, cleanup_drained_backends, apply_backends,
}
use loadbalancer.Reload.Restored.{Fit, AllFit, drain_missing-AllFit, restore_all-AllFit}

module _ (cs : List BackendConfig) where
  -- Before the cleanup looks at the references `l`, a node that is drained is one of them.
  abbrev Cleaned : List ℕ → Fleet → ℕ → Type 0
  Cleaned l x r = Fit cs (x.nodes r) × ((is_drained (x.nodes r) ≡ false) ⊎ Memᴰ r l)

  undrained-Cleaned :
      (r : ℕ) (l : List ℕ) (x : Fleet) (q : ℕ)
      → is_drained (x.nodes r) ≡ false
      → Cleaned (r ∷ l) x q
      → Cleaned l x q
  undrained-Cleaned r l x q e k = (
    k.0,
    elim k.1 [
      | inl f ↦ inl f
      | inr (Memᴰ.head f) ↦ inl (subst (λ a. is_drained (x.nodes a) ≡ false) (sym f) e)
      | inr (Memᴰ.tail f) ↦ inr f
    ],
  )

  has_address_self :
      (nodes : Nodes) (r : ℕ) → has_address nodes (nodes r).host (nodes r).port r ≡ true
  has_address_self nodes r =
      rw
        (
          (text_eq_iff (nodes r).host (nodes r).host).1 refl,
          (nat_eq_iff (nodes r).port (nodes r).port).1 refl,
        )
        refl

  kept-Cleaned :
      (r : ℕ) (l : List ℕ) (x : Fleet) (q : ℕ)
      → Cleaned (r ∷ l) x q × (not (has_address x.nodes (x.nodes r).host (x.nodes r).port q) ≡ true)
      → Cleaned l x q
  kept-Cleaned r l x q (k, g) = (
    k.0,
    elim k.1 [
      | inl f ↦ inl f
      | inr (Memᴰ.head f) ↦
          let own : has_address x.nodes (x.nodes r).host (x.nodes r).port q ≡ true =
            subst (λ a. has_address x.nodes (x.nodes r).host (x.nodes r).port a ≡ true) (sym f)
              (has_address_self x.nodes r) in
          cc
      | inr (Memᴰ.tail f) ↦ inr f
    ],
  )

  remove_drained-Cleaned :
      (r : ℕ) (l : List ℕ) (x : Fleet)
      → All (Cleaned (r ∷ l) x) x.pool.backends
      → let y = remove_drained r x in All (Cleaned l y) y.pool.backends
  unfolding remove_drained remove_backend
  remove_drained-Cleaned r l x k =
      let far : ℕ → Bool = λ q. not (has_address x.nodes (x.nodes r).host (x.nodes r).port q) in
      if-keeps (λ (y : Fleet). All (Cleaned l y) y.pool.backends) (is_drained (x.nodes r))
        (λ e.
          All-map (λ q. Cleaned (r ∷ l) x q × (far q ≡ true)) (Cleaned l x)
            (keep_if far x.pool.backends) (kept-Cleaned r l x)
            (keep_if-All-both (Cleaned (r ∷ l) x) far x.pool.backends k))
        (λ e.
          All-map (Cleaned (r ∷ l) x) (Cleaned l x) x.pool.backends
            (λ q. undrained-Cleaned r l x q e) k)

  cleanup_loop-Cleaned :
      (l : List ℕ) (x : Fleet)
      → All (Cleaned l x) x.pool.backends
      → let y = cleanup_loop l x in All (Cleaned [] y) y.pool.backends
  unfolding cleanup_loop
  cleanup_loop-Cleaned [] x k = k
  cleanup_loop-Cleaned (r ∷ rs) x k =
      cleanup_loop-Cleaned rs (remove_drained r x) (remove_drained-Cleaned r rs x k)

  -- A node of the pool that a reload leaves: the configuration lists it, or it is draining with
  -- connections that are still open.
  abbrev pub Settled : BackendNode → Type 0
  Settled n =
      (is_listed cs n ≡ true)
      ⊎ ((is_draining n.state ≡ true) × (nat_eq n.active_connections 0 ≡ false))

  Cleaned-Settled : (x : Fleet) (r : ℕ) → Cleaned [] x r → Settled (x.nodes r)
  Cleaned-Settled x r (inl e, d) = inl e
  Cleaned-Settled x r (inr e, inl d) = inr (e, (rw (← d, e) refl))
  Cleaned-Settled x r (inr e, inr m) = elim m [ ]

  -- After the backends of a new configuration are applied, each node that the pool holds has an
  -- address that the configuration lists, or it is draining and its count of connections is not
  -- zero; whatever the nodes, the pool and the health checker were before, and whichever addresses
  -- the configuration repeats.
  pub apply_backends_lem :
      (x : Fleet) → let y = apply_backends cs x in All (λ r. Settled (y.nodes r)) y.pool.backends
  unfolding apply_backends cleanup_drained_backends
  apply_backends_lem x =
      let drained : Fleet = record x { nodes = drain_missing cs x.pool.backends x.nodes } in
      let restored : Fleet = restore_all cs drained in
      let y : Fleet = cleanup_drained_backends restored in
      let fit : AllFit cs restored =
        restore_all-AllFit cs cs drained (All-Memᴰ cs)
          (drain_missing-AllFit cs x.pool.backends x.nodes) in
      All-map (Cleaned [] y) (λ r. Settled (y.nodes r)) y.pool.backends (Cleaned-Settled y)
        (cleanup_loop-Cleaned restored.pool.backends restored (
          All-map (λ r. Memᴰ r restored.pool.backends) (Cleaned restored.pool.backends restored)
            restored.pool.backends
            (λ r m. (All-get (λ q. Fit cs (restored.nodes q)) r m fit, inr m))
            (All-Memᴰ restored.pool.backends)))
