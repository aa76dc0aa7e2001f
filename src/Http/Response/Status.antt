-- ===== src/Http/Response/Status.antt =====
-- How the answers of the load balancer read to a client, such as the health checker of another one.
use loadbalancer.Base.{
  ℕ, ◌≡◌, refl, Bool, true, false, some, ◌∷◌, ◌++◌, arith, length, nat_eq, Text, bytes, decimal,
  Map, find, assign, is_digit, ℕ_keys, text_keys,
}
use loadbalancer.Health.Status.{read_status}
use loadbalancer.Health.Status.Answers.{read_status_lem}
use loadbalancer.Http.Response.{
  HttpStatusCode, ok, created, no_content, bad_request, unauthorized, forbidden, not_found,
  method_not_allowed, request_timeout, too_many_requests, internal_server_error, bad_gateway,
  service_unavailable, gateway_timeout, number, new_response, set_header, set_status, set_body,
  to_string, error_response,
}

abbrev pub is_2xx : HttpStatusCode → Bool
is_2xx ok = true
is_2xx created = true
is_2xx no_content = true
is_2xx code = false

judged :
    (a b c : ℕ) (rest : Text)
    → is_digit a ≡ true
    → is_digit b ≡ true
    → is_digit c ≡ true
    → read_status (bytes "HTTP/1.1 " ++ (a ∷ b ∷ c ∷ b' ' ∷ rest)) ≡ nat_eq a b'2'
judged a b c rest p q r =
    read_status_lem (bytes "1.1") rest a b c (omega arith, (omega arith, (omega arith, tt))) p q r

read_status-to_string :
    (code : HttpStatusCode) (reason : Text) (headers : Map Text Text) (body : Text)
    → read_status (
        to_string (record {
          status_code = number code;
          reason_phrase = reason;
          headers = headers;
          body = body;
        }))
      ≡ is_2xx code
unfolding to_string decimal
read_status-to_string ok reason headers body = judged b'2' b'0' b'0' _ refl refl refl
read_status-to_string created reason headers body = judged b'2' b'0' b'1' _ refl refl refl
read_status-to_string no_content reason headers body = judged b'2' b'0' b'4' _ refl refl refl
read_status-to_string bad_request reason headers body = judged b'4' b'0' b'0' _ refl refl refl
read_status-to_string unauthorized reason headers body = judged b'4' b'0' b'1' _ refl refl refl
read_status-to_string forbidden reason headers body = judged b'4' b'0' b'3' _ refl refl refl
read_status-to_string not_found reason headers body = judged b'4' b'0' b'4' _ refl refl refl
read_status-to_string method_not_allowed reason headers body =
    judged b'4' b'0' b'5' _ refl refl refl
read_status-to_string request_timeout reason headers body = judged b'4' b'0' b'8' _ refl refl refl
read_status-to_string too_many_requests reason headers body = judged b'4' b'2' b'9' _ refl refl refl
read_status-to_string internal_server_error reason headers body =
    judged b'5' b'0' b'0' _ refl refl refl
read_status-to_string bad_gateway reason headers body = judged b'5' b'0' b'2' _ refl refl refl
read_status-to_string service_unavailable reason headers body =
    judged b'5' b'0' b'3' _ refl refl refl
read_status-to_string gateway_timeout reason headers body = judged b'5' b'0' b'4' _ refl refl refl

-- An answer that the load balancer makes for any status and any message has the message as its body,
-- gives its length and says that the connection closes; and whoever reads its bytes as the health
-- checker reads an answer takes it for a success exactly when the status is one of 2xx.
pub error_response_lem :
    (code : HttpStatusCode) (message : Text)
    → let r = error_response code message in
      (read_status (to_string r) ≡ is_2xx code)
      × (r.body ≡ message)
      × (find (bytes "Content-Length") r.headers ≡ some (decimal (length message)))
      × (find (bytes "Connection") r.headers ≡ some (bytes "close"))
unfolding error_response new_response set_header set_status set_body find assign
error_response_lem code message =
    let r = error_response code message in
    (read_status-to_string code r.reason_phrase r.headers r.body, refl, refl, refl)
