-- ===== src/Forward/Http/State.antt =====
-- What HttpDataForwarder (src/core/http_data_forwarder.h) keeps for each client, and what it asks for.
use loadbalancer.Base.{ℕ, Bool, false, Option, List, [], Text, Map}
use loadbalancer.Memory.{MemoryBudget}
use loadbalancer.Net.Connection.{Connection}
use loadbalancer.Http.Message.{HttpRequest}
use loadbalancer.Http.RequestParser.{HttpRequestParser, new_parser}
use loadbalancer.Http.ResponseParser.{HttpResponseParser, ParsedHttpResponse}
use loadbalancer.Http.ResponseParser
use loadbalancer.Forward.Effect.{Effect}

pub record RequestInfo : Type 0 where
  pub method : Text
  pub path : Text
  pub client_ip : Text
  pub start_time : ℕ
  pub response_complete_time : ℕ
  pub status_code : ℕ
  pub backend : Text
  pub response_complete : Bool
  pub bytes_sent : ℕ
  pub bytes_received : ℕ

abbrev pub no_info : RequestInfo
no_info = record {
  method = [];
  path = [];
  client_ip = [];
  start_time = 0;
  response_complete_time = 0;
  status_code = 0;
  backend = [];
  response_complete = false;
  bytes_sent = 0;
  bytes_received = 0;
}

pub record HttpState : Type 0 where
  pub parser : HttpRequestParser
  pub request_parsed : Bool
  pub response_parser : HttpResponseParser
  pub response_parsed : Bool
  pub request_info : RequestInfo

unfoldable pub new_state : HttpState
unfolding new_parser
new_state = record {
  parser = new_parser;
  request_parsed = false;
  response_parser = ResponseParser.new_parser;
  response_parsed = false;
  request_info = no_info;
}

-- The callbacks that src/core/load_balancer.cpp sets, where one that is not set changes nothing;
-- `get_client_fd` is `none` for a descriptor that is not positive. `now` is the clock.
pub record Callbacks : Type 0 where
  pub get_client_ip : ℕ → Text
  pub get_client_fd : ℕ → Option ℕ
  pub logs : Bool
  pub modifier : HttpRequest → HttpRequest
  pub response_modifier : ParsedHttpResponse → ParsedHttpResponse
  pub session_cookie : Option Text
  pub injected_cookie : ℕ → Text
  pub is_https : Bool
  pub now : ℕ

-- What goes through the callbacks and the reactor.
pub data HttpEffect : Type 0 where
  asks : Effect → HttpEffect
  bad_request_counted : HttpEffect
  access_log : ℕ → RequestInfo → HttpEffect
  session_key_update : ℕ → Text → HttpEffect

-- The two connections of a call, the budget, the states by client, and the effects so far.
pub record Exchange : Type 0 where
  pub from : Connection
  pub to : Connection
  pub budget : MemoryBudget
  pub http_states : Map ℕ HttpState
  pub effects : List HttpEffect
