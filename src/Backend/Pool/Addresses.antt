-- ===== src/Backend/Pool/Addresses.antt =====
-- find_backend of src/core/backend_pool.cpp.
use loadbalancer.Base.{ℕ, ◌≡◌, true, List, [], ◌∷◌, Text, OnSome, Bool-cases, inl, inr}
use loadbalancer.Backend.Node.{Nodes}
use loadbalancer.Backend.Pool.{BackendPool, has_address, find_in, find_backend}

find_in_holds :
    (nodes : Nodes) (host : Text) (port : ℕ) (rs : List ℕ)
    → OnSome (λ r. has_address nodes host port r ≡ true) (find_in nodes host port rs)
unfolding find_in
find_in_holds nodes host port [] = tt
find_in_holds nodes host port (r ∷ rs) = elim (Bool-cases (has_address nodes host port r)) [
  | inl e ↦ rw e e
  | inr e ↦ rw e (find_in_holds nodes host port rs)
]

pub find_backend_holds :
    (nodes : Nodes) (host : Text) (port : ℕ) (p : BackendPool)
    → OnSome (λ r. has_address nodes host port r ≡ true) (find_backend nodes host port p)
unfolding find_backend
find_backend_holds nodes host port p = find_in_holds nodes host port p.backends
