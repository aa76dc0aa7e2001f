-- ===== src/Http/Response/Tests.antt =====
-- An answer, printed.
use loadbalancer.Base.{
  ◌≡◌, refl, some, length, ◌++◌, bytes, crlf, decimal, find, assign, text_keys, ℕ_keys,
}
use loadbalancer.Health.Status.{read_status}
use loadbalancer.Http.Response.{
  too_many_requests, or_unknown, get_status_reason, new_response, set_header, set_status, set_body,
  print_headers, to_string, error_response,
}
use loadbalancer.Http.Response.Status.{is_2xx, error_response_lem}

limited_run :
    to_string (error_response too_many_requests (bytes "no"))
    ≡ bytes "HTTP/1.1 429 Too Many Requests"
      ++ (crlf
          ++ (bytes "Content-Type: text/plain"
              ++ (crlf
                  ++ (bytes "Connection: close"
                      ++ (crlf ++ (bytes "Content-Length: 2" ++ (crlf ++ (crlf ++ bytes "no"))))))))
unfolding to_string error_response new_response set_header set_status set_body print_headers
    get_status_reason or_unknown find assign decimal
limited_run = refl

error_response_lem_example :
    let r = error_response too_many_requests (bytes "no") in
    (read_status (to_string r) ≡ is_2xx too_many_requests)
    × (r.body ≡ bytes "no")
    × (find (bytes "Content-Length") r.headers ≡ some (decimal (length (bytes "no"))))
    × (find (bytes "Connection") r.headers ≡ some (bytes "close"))
error_response_lem_example = error_response_lem too_many_requests (bytes "no")
