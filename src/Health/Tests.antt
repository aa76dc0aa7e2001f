-- ===== src/Health/Tests.antt =====
-- Checks of a backend at concrete values.
use loadbalancer.Base.{
  zero, suc, ◌≡◌, refl, inl, true, false, [], ◌∷◌, ◌++◌, arith, bytes, find, assign, replicate,
  decimal, crlf,
}
use loadbalancer.Backend.Node.{BackendNode, Nodes, healthy, unhealthy, draining}
use loadbalancer.Health.{HealthChecker, new_checker, add_backend, request_text}
use loadbalancer.Health.Thresholds.{checks, goes_down, comes_back}
use loadbalancer.Health.Steady.{checks_keep}
use loadbalancer.Health.Status.{read_status}
use loadbalancer.Health.Status.Answers.{read_status_lem}

abbrev node : BackendNode
node = record {
  host = bytes "h";
  port = 80;
  weight = 1;
  state = healthy;
  active_connections = 0;
  failure_count = 0;
}

abbrev nodes : Nodes
nodes zero = node
nodes (suc zero) = record node { state = unhealthy }
nodes (suc (suc r)) = record node { state = draining }

abbrev checker : HealthChecker
unfolding new_checker add_backend
checker = add_backend 1 (add_backend 0 new_checker)

request_run :
    request_text (bytes "h") 8080 (bytes "/up")
    ≡ bytes "GET /up HTTP/1.1"
      ++ (crlf ++ (bytes "Host: h:8080" ++ (crlf ++ (bytes "Connection: close" ++ (crlf ++ crlf)))))
unfolding request_text decimal
request_run = refl

goes_down_example : ((checks 0 (replicate 3 false) (nodes, checker)).0 0).state ≡ unhealthy
unfolding new_checker add_backend find assign
goes_down_example =
    goes_down 3 0 nodes checker (record { stands = refl; counted = refl }) (omega arith)
      (omega arith) (omega arith)

comes_back_example : ((checks 1 (replicate 1 true) (nodes, checker)).0 1).state ≡ unhealthy
unfolding new_checker add_backend find assign
comes_back_example =
    comes_back 1 1 nodes checker (record { stands = refl; counted = refl }) (omega arith)
      (omega arith) (omega arith)

checks_keep_example : (checks 2 (false ∷ false ∷ false ∷ []) (nodes, checker)).0 2 ≡ nodes 2
checks_keep_example = checks_keep 2 2 (false ∷ false ∷ false ∷ []) nodes checker (inl refl)

read_status_lem_example : read_status (bytes "HTTP/1.1 204 No Content") ≡ true
read_status_lem_example =
    read_status_lem (bytes "1.1") (bytes "No Content") b'2' b'0' b'4' (omega arith) refl refl refl
