-- ===== src/Http/Response.antt =====
-- `HttpResponse` of src/http/http_response.h and http_response.cpp: the answers that the load balancer
-- makes itself. Headers are printed in the order of the map.
pub mod Status
mod Tests
use loadbalancer.Base.{
  ℕ, Option, none, some, List, [], ◌∷◌, ◌++◌, length, Text, bytes, crlf, decimal, Map, find, assign,
  ℕ_keys, text_keys,
}

pub data HttpStatusCode : Type 0 where
  ok created no_content bad_request unauthorized forbidden not_found method_not_allowed
        request_timeout too_many_requests internal_server_error bad_gateway service_unavailable
        gateway_timeout :
      HttpStatusCode

abbrev pub number : HttpStatusCode → ℕ
number ok = 200
number created = 201
number no_content = 204
number bad_request = 400
number unauthorized = 401
number forbidden = 403
number not_found = 404
number method_not_allowed = 405
number request_timeout = 408
number too_many_requests = 429
number internal_server_error = 500
number bad_gateway = 502
number service_unavailable = 503
number gateway_timeout = 504

pub record HttpResponse : Type 0 where
  pub status_code : ℕ
  pub reason_phrase : Text
  pub headers : Map Text Text
  pub body : Text

-- The cases of the switch.
abbrev reasons : Map ℕ Text
reasons =
    (200, bytes "OK")
    ∷ (201, bytes "Created")
    ∷ (204, bytes "No Content")
    ∷ (400, bytes "Bad Request")
    ∷ (401, bytes "Unauthorized")
    ∷ (403, bytes "Forbidden")
    ∷ (404, bytes "Not Found")
    ∷ (405, bytes "Method Not Allowed")
    ∷ (408, bytes "Request Timeout")
    ∷ (429, bytes "Too Many Requests")
    ∷ (500, bytes "Internal Server Error")
    ∷ (502, bytes "Bad Gateway")
    ∷ (503, bytes "Service Unavailable")
    ∷ (504, bytes "Gateway Timeout")
    ∷ []

or_unknown : Option Text → Text
or_unknown none = bytes "Unknown"
or_unknown (some reason) = reason

get_status_reason : ℕ → Text
get_status_reason status = or_unknown (find status reasons)

unfoldable pub set_header : Text → Text → HttpResponse → HttpResponse
set_header name value r = record r { headers = assign name value r.headers }

unfoldable pub new_response : HttpResponse
unfolding set_header
new_response = set_header (bytes "Connection") (bytes "close") (
    set_header (bytes "Content-Type") (bytes "text/plain")
      (record { status_code = 200; reason_phrase = bytes "OK"; headers = []; body = [] }))

pub set_status : HttpStatusCode → HttpResponse → HttpResponse
set_status code r = record r {
  status_code = number code;
  reason_phrase = get_status_reason (number code);
}

unfoldable pub set_body : Text → HttpResponse → HttpResponse
unfolding set_header
set_body body r =
    set_header (bytes "Content-Length") (decimal (length body)) (record r { body = body })

print_headers : Map Text Text → Text
print_headers [] = []
print_headers ((name, value) ∷ headers) =
    name ++ (bytes ": " ++ (value ++ (crlf ++ print_headers headers)))

-- `to_bytes` has the same bytes.
pub to_string : HttpResponse → Text
to_string r =
    bytes "HTTP/1.1 "
    ++ (decimal r.status_code
        ++ (b' ' ∷ r.reason_phrase ++ (crlf ++ (print_headers r.headers ++ (crlf ++ r.body)))))

pub error_response : HttpStatusCode → Text → HttpResponse
unfolding set_header set_body
error_response code message =
    set_body message
      (set_header (bytes "Content-Type") (bytes "text/plain") (set_status code new_response))
