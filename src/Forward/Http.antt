-- ===== src/Forward/Http.antt =====
-- src/core/http_data_forwarder.cpp. The two connections are there and are not the same one;
-- `from_fd` is the descriptor of the sender, which an established connection has.
pub mod State
pub mod Misprinting
pub mod Parsing
pub mod Rejecting
pub mod Rewriting
pub mod Unanswered
mod Tests
use loadbalancer.Base.{
  ℕ, ◌+◌, ◌-◌, min, Bool, true, false, not, ◌&&◌, ◌||◌, Option, none, some, List, [], ◌∷◌, ◌++◌,
  length, Text, ℕ_keys, Map, find, assign, erase, bytes, is_empty, ltb, nat_eq, u64, if◌then◌else◌,
}
use loadbalancer.Memory.{MemoryBudget}
use loadbalancer.Net.Connection.{
  Connection, is_established, write_available, Sent, write_to_fd, try_reserve_additional_bytes,
  release_accounted_bytes,
}
use loadbalancer.Http.RequestParser.{HttpRequestParser, new_parser}
use loadbalancer.Http.Handler.{is_http_request}
use loadbalancer.Http.Response.{error_response, to_string, bad_request}
use loadbalancer.Forward.Effect.{
  Effect, start_backpressure, clear_backpressure, close_connection, mod_fd,
}
use loadbalancer.Forward.Buffered.{moved_from, moved_to, moved_events, has_pending_send}
use loadbalancer.Forward.Http.State.{
  RequestInfo, no_info, HttpState, Callbacks, HttpEffect, asks, bad_request_counted, access_log,
  Exchange,
}
use loadbalancer.Forward.Http.Parsing.{
  or_new, state_of, put_state, emit, or_unknown, parse_and_modify_http_request,
  parse_and_modify_http_response, parse_response_status,
}
use loadbalancer.Http.ResponseParser

-- A step goes on, or the call has returned.
pub data Step : Type 0 where
  goes_on returned : Exchange → Step

unfoldable pub then_do : Step → (Exchange → Step) → Step
then_do (goes_on x) f = f x
then_do (returned x) f = returned x

bad_info : Callbacks → Text → Connection → RequestInfo
bad_info k client_ip from = record no_info {
  client_ip = client_ip;
  method = bytes "INVALID";
  status_code = 400;
  start_time = k.now;
  response_complete_time = k.now;
  response_complete = true;
  bytes_received = length from.read_buf;
}

-- The answer takes the place of the write buffer, and what is left of the request goes.
answered : ℕ → HttpState → Text → Exchange → Connection × MemoryBudget → Step
answered from_fd s answer x (c, b) = returned (
    emit (asks (mod_fd (some from_fd) true true) ∷ asks (close_connection x.to.fd) ∷ []) (
      put_state from_fd (record s { parser = new_parser; request_parsed = false })
        (record x { from = record c { write_buf = answer; read_buf = [] }; budget = b })))

answer_reserved : ℕ → HttpState → Text → Exchange → Connection × MemoryBudget × Bool → Step
answer_reserved from_fd s answer x (c, b, true) = answered from_fd s answer x (c, b)
answer_reserved from_fd s answer x (c, b, false) = returned (
    emit (asks (close_connection (some from_fd)) ∷ asks (close_connection x.to.fd) ∷ [])
      (record x { from = c; budget = b }))

-- The request that the parser could not read is answered by 400.
reject : Callbacks → ℕ → HttpState → Exchange → Step
reject k from_fd s x =
    let client_ip = or_unknown (k.get_client_ip from_fd) in
    let logged = if k.logs then access_log from_fd (bad_info k client_ip x.from) ∷ [] else [] in
    let x' = emit (bad_request_counted ∷ logged) x in
    let answer = to_string (error_response bad_request (bytes "Invalid HTTP request")) in
    let old_sz = length x.from.write_buf in
    let new_sz = length answer in
    if ltb old_sz new_sz
    then answer_reserved from_fd s answer x'
        (try_reserve_additional_bytes (new_sz - old_sz) x.from x.budget)
    else if ltb new_sz old_sz
    then answered from_fd s answer x' (release_accounted_bytes (old_sz - new_sz) x.from x.budget)
    else answered from_fd s answer x' (x.from, x.budget)

-- A message that could not be parsed yet ends the call.
request_parsed_now : ℕ → Bool × Exchange → Step
request_parsed_now from_fd (false, x) = returned x
request_parsed_now from_fd (true, x) =
    goes_on (put_state from_fd (record (state_of from_fd x) { request_parsed = true }) x)

pub parse_request : Callbacks → ℕ → Exchange → Step
parse_request k from_fd x =
    if (state_of from_fd x).request_parsed
    then goes_on (put_state from_fd (state_of from_fd x) x)
    else request_parsed_now from_fd (parse_and_modify_http_request k from_fd x)

pub check_request : Callbacks → ℕ → Exchange → Step
check_request k from_fd x =
    let s = state_of from_fd x in
    if s.request_parsed && s.parser.has_error then reject k from_fd s x else goes_on x

from_client : Callbacks → ℕ → Exchange → Step
from_client k from_fd x = then_do (parse_request k from_fd x) (check_request k from_fd)

response_parsed_now : ℕ → Bool × Exchange → Step
response_parsed_now client_fd (false, x) = returned x
response_parsed_now client_fd (true, x) =
    goes_on (put_state client_fd (record (state_of client_fd x) { response_parsed = true }) x)

parse_response : Callbacks → ℕ → Exchange → Step
parse_response k client_fd x =
    if (state_of client_fd x).response_parsed
    then goes_on (put_state client_fd (state_of client_fd x) x)
    else response_parsed_now client_fd (parse_and_modify_http_response k client_fd x)

check_status : ℕ → Exchange → Step
check_status client_fd x = goes_on (
    if nat_eq (state_of client_fd x).request_info.status_code 0
    then parse_response_status client_fd x.from.read_buf x
    else x)

from_backend : Callbacks → Option ℕ → Exchange → Step
from_backend k none x = goes_on x
from_backend k (some client_fd) x = then_do (parse_response k client_fd x) (check_status client_fd)

count_received : ℕ → ℕ → Option HttpState → Exchange → Exchange
count_received fd n none x = x
count_received fd n (some s) x =
    put_state fd
      (record s {
        request_info = record (s.request_info) {
          bytes_received = u64 (s.request_info.bytes_received + n);
        };
      })
      x

count_sent_found : ℕ → ℕ → Option HttpState → Exchange → Exchange
count_sent_found fd n none x = x
count_sent_found fd n (some s) x =
    put_state fd
      (record s {
        request_info = record (s.request_info) { bytes_sent = u64 (s.request_info.bytes_sent + n) };
      })
      x

count_sent : ℕ → Option ℕ → Exchange → Exchange
count_sent n none x = x
count_sent n (some client_fd) x = count_sent_found client_fd n (find client_fd x.http_states) x

-- The bytes are counted for the client, whose request or answer they are.
count_bytes : Bool → Callbacks → ℕ → ℕ → Exchange → Exchange
count_bytes true k from_fd n x = count_received from_fd n (find from_fd x.http_states) x
count_bytes false k from_fd n x = count_sent n (k.get_client_fd from_fd) x

-- The next request of the client starts anew.
forget_request : ℕ → HttpState → Exchange → Exchange
forget_request client_fd s x =
    put_state client_fd
      (record s {
        request_info = no_info;
        request_parsed = false;
        response_parsed = false;
        parser = new_parser;
        response_parser = ResponseParser.new_parser;
      })
      x

complete_response : Callbacks → ℕ → HttpState → Exchange → Exchange
complete_response k client_fd s x =
    let i = record (s.request_info) { response_complete_time = k.now; response_complete = true } in
    if k.logs
    then forget_request client_fd s (emit (access_log client_fd i ∷ []) x)
    else put_state client_fd (record s { request_info = i }) x

finish_found : Callbacks → ℕ → Option HttpState → Exchange → Exchange
finish_found k client_fd none x = x
finish_found k client_fd (some s) x =
    if ltb 0 s.request_info.status_code
      && (is_empty x.from.read_buf && not s.request_info.response_complete)
    then complete_response k client_fd s x
    else x

finish_client : Callbacks → Option ℕ → Exchange → Exchange
finish_client k none x = x
finish_client k (some client_fd) x = finish_found k client_fd (find client_fd x.http_states) x

finish : Bool → Callbacks → ℕ → Exchange → Exchange
finish true k from_fd x = x
finish false k from_fd x = finish_client k (k.get_client_fd from_fd) x

-- What follows the write.
after_send : Bool → Callbacks → ℕ → ℕ → Exchange → Connection × MemoryBudget × Bool → Exchange
after_send http k from_fd pending x (to, b, false) =
    emit (asks (close_connection to.fd) ∷ []) (record x { to = to; budget = b })
after_send http k from_fd pending x (to, b, true) =
    let pressure =
      if has_pending_send to pending
      then start_backpressure (some from_fd)
      else clear_backpressure (some from_fd) in
    finish http k from_fd (emit (asks pressure ∷ []) (record x { to = to; budget = b }))

-- The bytes are moved, whether or not they are a request.
relay : Bool → Callbacks → (List ℕ → Sent) → ℕ → ℕ → Exchange → Exchange
relay http k socket pending from_fd x =
    let to_copy = min (length x.from.read_buf) (write_available x.to) in
    if nat_eq to_copy 0
    then emit
        (asks (start_backpressure (some from_fd)) ∷ asks (mod_fd (some from_fd) false true) ∷ []) x
    else let from' = moved_from to_copy x.from in
      let to' = moved_to to_copy x.from x.to in
      let x' = count_bytes http k from_fd to_copy x in
      after_send http k from_fd pending
        (emit
          (asks (mod_fd x.to.fd true true)
            ∷ asks (mod_fd (some from_fd) (not from'.memory_blocked && not from'.buffer_full) true)
            ∷ [])
          (record x' { from = from' }))
        (write_to_fd socket to' x.budget)

relayed : Bool → Callbacks → (List ℕ → Sent) → ℕ → ℕ → Step → Exchange
relayed http k socket pending from_fd (returned x) = x
relayed http k socket pending from_fd (goes_on x) = relay http k socket pending from_fd x

pub forward : Callbacks → (List ℕ → Sent) → ℕ → ℕ → Exchange → Exchange
forward k socket pending from_fd x =
    let http = is_http_request x.from.read_buf in
    if not (is_established x.from.state && is_established x.to.state)
    then x
    else if is_empty x.from.read_buf
    then x
    else relayed http k socket pending from_fd
        (if http then from_client k from_fd x else from_backend k (k.get_client_fd from_fd) x)

-- The requests by client, from outside.
pub set_backend_for_request : ℕ → Text → Map ℕ HttpState → Map ℕ HttpState
set_backend_for_request client_fd backend m = backend_set client_fd backend (find client_fd m) m
  where
    backend_set : ℕ → Text → Option HttpState → Map ℕ HttpState → Map ℕ HttpState
    backend_set client_fd backend none m = m
    backend_set client_fd backend (some s) m =
        assign client_fd (record s { request_info = record (s.request_info) { backend = backend } })
          m

info_found : Option HttpState → Option RequestInfo
info_found none = none
info_found (some s) = if is_empty s.request_info.method then none else some s.request_info

pub get_request_info : ℕ → Map ℕ HttpState → Option RequestInfo
get_request_info client_fd m = info_found (find client_fd m)

pub clear_request_info : ℕ → Map ℕ HttpState → Map ℕ HttpState
clear_request_info client_fd m = erase client_fd m
