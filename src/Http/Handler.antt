-- ===== src/Http/Handler.antt =====
-- src/http/http_handler.cpp: what the load balancer changes in the headers of a message.
pub mod Removal
pub mod Responses
pub mod Forwarded
mod Tests
use loadbalancer.Base.{
  ℕ, Bool, true, false, not, ◌||◌, List, [], ◌∷◌, ◌++◌, Text, text_keys, ◌==◌, bytes, length, Map,
  assign, keep_if, any_of, lower, starts_with, is_empty, ltb, if◌then◌else◌,
}
use loadbalancer.Http.Message.{HttpRequest, get_header, get_host}

unfoldable pub set_header : Text → Text → HttpRequest → HttpRequest
set_header name value r = record r { headers = assign name value r.headers }

unfoldable pub set_forwarded_for : Text → Text → HttpRequest → HttpRequest
unfolding set_header
set_forwarded_for client_ip existing_xff r =
    if is_empty existing_xff
    then set_header (bytes "X-Forwarded-For") client_ip r
    else set_header (bytes "X-Forwarded-For") (existing_xff ++ (bytes ", " ++ client_ip)) r

unfoldable pub set_real_ip : Text → HttpRequest → HttpRequest
unfolding set_header
set_real_ip client_ip r =
    if not (is_empty client_ip) then set_header (bytes "X-Real-IP") client_ip r else r

unfoldable pub set_forwarded_host : HttpRequest → HttpRequest
unfolding set_header
set_forwarded_host r =
    let host = get_host r in
    if not (is_empty host) then set_header (bytes "X-Forwarded-Host") host r else r

unfoldable pub modify_request_headers : Text → Bool → HttpRequest → HttpRequest
modify_request_headers client_ip is_https r = set_forwarded_host (
    set_header (bytes "X-Forwarded-Proto") (if is_https then bytes "https" else bytes "http") (
      set_real_ip client_ip
        (set_forwarded_for client_ip (get_header (bytes "X-Forwarded-For") r) r)))

-- The names are the same in lower case.
abbrev pub is_same_name : Text → Text → Bool
is_same_name target key = lower key == lower target

unfoldable pub erase_name : Text → Map Text Text → Map Text Text
erase_name target headers = keep_if (λ e. not (is_same_name target e.0)) headers

unfoldable pub erase_names : List Text → Map Text Text → Map Text Text
unfolding erase_name
erase_names [] headers = headers
erase_names (target ∷ names) headers = erase_names names (erase_name target headers)

-- The first header of the name takes the value.
unfoldable pub replace_first : Text → Text → Map Text Text → Map Text Text
replace_first name value [] = []
replace_first name value ((key, val) ∷ headers) =
    let rest = replace_first name value headers in
    if is_same_name name key then (key, value) ∷ headers else (key, val) ∷ rest

abbrev pub has_name : Text → Map Text Text → Bool
has_name name headers = any_of (λ e. is_same_name name e.0) headers

unfoldable pub put_header : Text → Text → Map Text Text → Map Text Text
unfolding erase_name replace_first
put_header name value headers =
    if is_empty value
    then erase_name name headers
    else if has_name name headers
    then replace_first name value headers
    else assign name value headers

unfoldable pub put_headers : Map Text Text → Map Text Text → Map Text Text
unfolding put_header
put_headers [] headers = headers
put_headers ((name, value) ∷ added) headers = put_headers added (put_header name value headers)

-- What both overloads of `apply_custom_headers` do to the map.
unfoldable pub edit_headers : Map Text Text → List Text → Map Text Text → Map Text Text
unfolding put_headers erase_names
edit_headers headers_to_add headers_to_remove headers =
    put_headers headers_to_add (erase_names headers_to_remove headers)

unfoldable pub apply_custom_headers : Map Text Text → List Text → HttpRequest → HttpRequest
unfolding edit_headers
apply_custom_headers headers_to_add headers_to_remove r = record r {
  headers = edit_headers headers_to_add headers_to_remove r.headers;
}

-- The methods that `is_http_request` knows.
abbrev pub method_prefixes : List Text
method_prefixes =
    bytes "GET "
    ∷ bytes "POST "
    ∷ bytes "PUT "
    ∷ bytes "DELETE "
    ∷ bytes "PATCH "
    ∷ bytes "HEAD "
    ∷ bytes "OPTIONS "
    ∷ []

unfoldable pub is_http_request : Text → Bool
is_http_request buffer =
    if ltb (length buffer) 4 then false else any_of (λ p. starts_with p buffer) method_prefixes
