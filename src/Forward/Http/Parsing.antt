-- ===== src/Forward/Http/Parsing.antt =====
-- How HttpDataForwarder (src/core/http_data_forwarder.cpp) parses, edits and prints a message.
use loadbalancer.Base.{
  ℕ, zero, suc, ◌+◌, ◌-◌, ◌*◌, Bool, true, false, not, ◌&&◌, ◌||◌, Option, none, some, List, [],
  ◌∷◌, ◌++◌, length, drop, Text, text_keys, ℕ_keys, find, assign, bytes, is_empty, is_digit,
  starts_with, ltb, leb, if◌then◌else◌,
}
use loadbalancer.Memory.{MemoryBudget}
use loadbalancer.Net.Connection.{Connection, try_reserve_additional_bytes, release_accounted_bytes}
use loadbalancer.Http.Message.{HttpRequest, method_to_string, get_cookie}
use loadbalancer.Http.RequestParser.{Parsed, parse}
use loadbalancer.Http.RequestParser.Serialized.{target, serialize_http_request}
use loadbalancer.Http.ResponseParser.{
  ParsedHttpResponse, HttpResponseParser, serialize_http_response,
}
use loadbalancer.Http.ResponseParser
use loadbalancer.Http.Handler.{modify_request_headers, is_http_request}
use loadbalancer.Forward.Effect.{start_backpressure, mod_fd}
use loadbalancer.Forward.Http.State.{
  RequestInfo, HttpState, new_state, Callbacks, HttpEffect, asks, session_key_update, Exchange,
}

-- `http_states_[fd]`: a new state where there is none.
abbrev pub or_new : Option HttpState → HttpState
or_new none = new_state
or_new (some s) = s

abbrev pub state_of : ℕ → Exchange → HttpState
state_of fd x = or_new (find fd x.http_states)

abbrev pub put_state : ℕ → HttpState → Exchange → Exchange
put_state fd s x = record x { http_states = assign fd s x.http_states }

abbrev pub emit : List HttpEffect → Exchange → Exchange
emit effects x = record x { effects = x.effects ++ effects }

abbrev pub or_unknown : Text → Text
or_unknown client_ip = if is_empty client_ip then bytes "unknown" else client_ip

-- The message takes the place of the read buffer, if the budget has room for what it is longer.
unfoldable pub resized : Text → Exchange → Connection × MemoryBudget × Bool → Bool × Exchange
resized message x (c, b, true) =
    (true, record x { from = record c { read_buf = message }; budget = b })
resized message x (c, b, false) = (
  false,
  emit (asks (start_backpressure c.fd) ∷ asks (mod_fd c.fd false true) ∷ [])
      (record x { from = c; budget = b }),
)

unfoldable pub released : Text → Exchange → Connection × MemoryBudget → Bool × Exchange
released message x (c, b) = (true, record x { from = record c { read_buf = message }; budget = b })

unfoldable pub replace_buffer : Text → Exchange → Bool × Exchange
replace_buffer message x =
    let before = length x.from.read_buf in
    let after = length message in
    if ltb before after
    then resized message x (try_reserve_additional_bytes (after - before) x.from x.budget)
    else if ltb after before
    then released message x (release_accounted_bytes (before - after) x.from x.budget)
    else (true, record x { from = record (x.from) { read_buf = message } })

-- The cookie of the session, if there is one.
unfoldable pub session_update : ℕ → Option Text → List HttpEffect
session_update fd none = []
session_update fd (some value) = if is_empty value then [] else session_key_update fd value ∷ []

unfoldable pub session_effects : Callbacks → ℕ → HttpRequest → List HttpEffect
session_effects k fd r = elim (k.session_cookie) [
  | none ↦ []
  | some name ↦ session_update fd (get_cookie name r)
]

unfoldable pub edit_request : Callbacks → Text → HttpRequest → HttpRequest
edit_request k client_ip r = k.modifier (modify_request_headers client_ip k.is_https r)

unfoldable pub info_of : Callbacks → Text → HttpRequest → RequestInfo → RequestInfo
info_of k client_ip r i = record i {
  method = method_to_string r.method;
  path = target r;
  client_ip = client_ip;
  start_time = k.now;
}

-- The request is edited in the parser, whose state stays COMPLETE; `s` is the state of the client.
unfoldable pub request_read : Callbacks → ℕ → HttpState → Option Parsed → Exchange → Bool × Exchange
request_read k fd s none x = (false, x)
request_read k fd s (some (false, consumed, p)) x =
    (false, put_state fd (record s { parser = p }) x)
request_read k fd s (some (true, consumed, p)) x =
    let client_ip = or_unknown (k.get_client_ip fd) in
    let r = edit_request k client_ip p.request in
    let s' = record s {
      parser = record p { request = r };
      request_info = info_of k client_ip p.request s.request_info;
    } in
    replace_buffer (serialize_http_request r) (emit (session_effects k fd r) (put_state fd s' x))

unfoldable pub parse_and_modify_http_request : Callbacks → ℕ → Exchange → Bool × Exchange
parse_and_modify_http_request k fd x =
    if not (is_http_request x.from.read_buf)
    then (false, x)
    else request_read k fd (state_of fd x) (parse x.from.read_buf (state_of fd x).parser) x

unfoldable pub inject : Text → ParsedHttpResponse → ParsedHttpResponse
inject cookie r =
    if is_empty cookie
    then r
    else record r { headers = assign (bytes "Set-Cookie") cookie r.headers }

unfoldable pub edit_response : Callbacks → ℕ → ParsedHttpResponse → ParsedHttpResponse
edit_response k client_fd r = inject (k.injected_cookie client_fd) (k.response_modifier r)

unfoldable pub response_read :
    Callbacks → ℕ → HttpState → Option ResponseParser.Parsed → Exchange → Bool × Exchange
response_read k fd s none x = (false, x)
response_read k fd s (some (false, consumed, p)) x =
    (false, put_state fd (record s { response_parser = p }) x)
response_read k fd s (some (true, consumed, p)) x =
    let r = edit_response k fd p.response in
    let s' = record s { response_parser = record p { response = r } } in
    replace_buffer (serialize_http_response r) (put_state fd s' x)

unfoldable pub parse_and_modify_http_response : Callbacks → ℕ → Exchange → Bool × Exchange
parse_and_modify_http_response k fd x =
    let s = state_of fd x in
    response_read k fd s (ResponseParser.parse x.from.read_buf s.response_parser) x

-- `HTTP/`, the digits of a version and a blank.
unfoldable pub is_status_line : Text → Bool
is_status_line s =
    starts_with (bytes "HTTP/1.0 ") s
    || (starts_with (bytes "HTTP/1.1 ") s
        || (starts_with (bytes "HTTP/2.0 ") s || starts_with (bytes "HTTP/2.1 ") s))

-- Up to three digits.
unfoldable pub status_digits : ℕ → ℕ → Text → ℕ
status_digits zero acc s = acc
status_digits (suc n) acc [] = acc
status_digits (suc n) acc (c ∷ s) =
    let rest = status_digits n (acc * 10 + (c - b'0')) s in if is_digit c then rest else acc

-- The loop over the places of the data: the first status line decides.
unfoldable pub find_status : Text → Option ℕ
find_status [] = none
find_status (c ∷ s) =
    let later = find_status s in
    let behind = drop 9 (c ∷ s) in
    if ltb (length (c ∷ s)) 9
    then none
    else if is_status_line (c ∷ s)
    then if ltb 3 (length behind) then some (status_digits 3 0 behind) else none
    else later

unfoldable pub set_status : ℕ → HttpState → Option ℕ → Exchange → Exchange
set_status fd s none x = x
set_status fd s (some status) x =
    if leb 100 status && ltb status 600
    then put_state fd (record s { request_info = record (s.request_info) { status_code = status } })
        x
    else x

unfoldable pub status_in : ℕ → Text → Option HttpState → Exchange → Exchange
status_in fd response_data none x = x
status_in fd response_data (some s) x =
    if ltb 0 s.request_info.status_code || ltb (length response_data) 12
    then x
    else set_status fd s (find_status response_data) x

unfoldable pub parse_response_status : ℕ → Text → Exchange → Exchange
parse_response_status fd response_data x = status_in fd response_data (find fd x.http_states) x
