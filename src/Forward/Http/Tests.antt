-- ===== src/Forward/Http/Tests.antt =====
-- A small request on its way, and one that cannot be read.
use loadbalancer.Base.{
  ◌-◌, ◌<◌, inr, length, ltb, ltb→lt, ◌≡◌, refl, true, false, none, [], ◌++◌, arith, ℕ_keys,
  text_keys, Text, bytes, crlf, find, assign,
}
use loadbalancer.Net.Connection.{established, new_connection, set_memory_accounting, wrote}
use loadbalancer.Net.Connection.Room.{HasRoom}
use loadbalancer.Http.Message.{
  HttpRequest, new_request, get, http_1_1, method_to_string, version_to_string, get_header,
  header_found, find_letters, get_host,
}
use loadbalancer.Http.Handler.{
  is_http_request, modify_request_headers, set_forwarded_for, set_real_ip, set_forwarded_host,
  set_header,
}
use loadbalancer.Http.RequestParser.RequestLine.{IsPlain}
use loadbalancer.Http.RequestParser.Serialized.{serialize_http_request, print_line}
use loadbalancer.Forward.Http.State.{Callbacks, Exchange}
use loadbalancer.Forward.Http.Parsing.{
  edit_request, parse_and_modify_http_request, parse_and_modify_http_response,
}
use loadbalancer.Forward.Http.Misprinting.{
  LeavesDoubled, parse_and_modify_http_response-LeavesDoubled,
}
use loadbalancer.Forward.Http.Rejecting.{Quiet}
use loadbalancer.Forward.Http.Unanswered.{forward-Quiet}
use loadbalancer.Forward.Http.Rewriting.{Holds, parse_and_modify_http_request-Holds}
use loadbalancer.Forward.Http.{forward}

abbrev plain : HttpRequest
plain = record new_request { method = get; path = bytes "/"; version = http_1_1 }

plain-IsPlain : IsPlain plain
plain-IsPlain = record {
  path_full = refl;
  path_solid = search;
  path_plain = omega arith;
  query_solid = tt;
  version_known = λ e. cc;
  headers_plain = tt;
  names = tt;
  length_declared = refl;
}

abbrev callbacks : Callbacks
callbacks = record {
  get_client_ip = λ fd. bytes "10.0.0.1";
  get_client_fd = λ fd. none;
  logs = false;
  modifier = λ r. r;
  response_modifier = λ r. r;
  session_cookie = none;
  injected_cookie = λ fd. [];
  is_https = false;
  now = 5;
}

abbrev carrying : Text → Exchange
carrying buffer = record {
  from = record (set_memory_accounting (new_connection 7)) {
    state = established;
    read_buf = buffer;
  };
  to = record (new_connection 8) { state = established };
  budget = record { used_bytes = 0; limit_bytes = 2000 };
  http_states = [];
  effects = [];
}

abbrev two_requests : Text
two_requests = serialize_http_request plain ++ serialize_http_request plain

two_requests_http : is_http_request two_requests ≡ true
unfolding is_http_request serialize_http_request print_line method_to_string version_to_string
two_requests_http = refl

none_yet : find 7 (carrying two_requests).http_states ≡ none
unfolding find
none_yet = refl

abbrev edited : Text
edited = serialize_http_request (edit_request callbacks (bytes "10.0.0.1") plain)

edited_run : ltb (length edited) 1000 ≡ true
unfolding serialize_http_request print_line method_to_string version_to_string edit_request
    modify_request_headers set_forwarded_for set_real_ip set_forwarded_host set_header get_header
    header_found find_letters get_host find assign
edited_run = refl

-- The headers that are added fit.
carried_room :
    HasRoom
      (length edited - length (carrying two_requests).from.read_buf)
      (carrying two_requests).budget
carried_room =
    let short : length edited < 1000 = ltb→lt (length edited) 1000 edited_run in
    inr (omega (arith, short), omega arith)

parse_and_modify_http_request-Holds_example :
    Holds
      (serialize_http_request (edit_request callbacks (bytes "10.0.0.1") plain))
      (parse_and_modify_http_request callbacks 7 (carrying two_requests))
parse_and_modify_http_request-Holds_example =
    parse_and_modify_http_request-Holds callbacks 7 plain (serialize_http_request plain)
      (carrying two_requests) plain-IsPlain none_yet refl two_requests_http carried_room

forward-Quiet_example :
    Quiet (forward callbacks (λ bs. wrote 0) 0 7 (carrying (bytes "GET nothing" ++ crlf)))
forward-Quiet_example =
    forward-Quiet callbacks (λ bs. wrote 0) 0 7 (carrying (bytes "GET nothing" ++ crlf)) (tt, tt)

parse_and_modify_http_response-LeavesDoubled_example : LeavesDoubled (
    parse_and_modify_http_response callbacks 7
      (carrying (bytes "HTTP/1.1 204 No Content" ++ (crlf ++ crlf))))
parse_and_modify_http_response-LeavesDoubled_example =
    parse_and_modify_http_response-LeavesDoubled callbacks 7
      (carrying (bytes "HTTP/1.1 204 No Content" ++ (crlf ++ crlf)))
