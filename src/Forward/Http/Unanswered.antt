-- ===== src/Forward/Http/Unanswered.antt =====
-- HttpDataForwarder::forward (src/core/http_data_forwarder.cpp) as a whole, and requests that it cannot read.
use loadbalancer.Base.{
  ℕ, inl, refl, Bool, true, false, not, ◌&&◌, ◌||◌, Option, none, some, List, [], ◌∷◌, length, Text,
  ℕ_keys, find, find-OnSome, OnSome, is_empty, ltb, leb, nat_eq, if◌then◌else◌, if-keeps, min,
}
use loadbalancer.Memory.{MemoryBudget}
use loadbalancer.Net.Connection.{Connection, Sent, write_to_fd, is_established, write_available}
use loadbalancer.Http.ResponseParser
use loadbalancer.Http.ResponseParser.{serialize_http_response}
use loadbalancer.Http.Handler.{is_http_request}
use loadbalancer.Forward.Effect.{start_backpressure, clear_backpressure, close_connection}
use loadbalancer.Forward.Buffered.{has_pending_send, moved_from, moved_to}
use loadbalancer.Forward.Http.State.{HttpState, Callbacks, asks, access_log, Exchange}
use loadbalancer.Forward.Http.Parsing.{
  state_of, emit, parse_and_modify_http_response, find_status, set_status, status_in,
  parse_response_status,
}
use loadbalancer.Forward.Http.{
  Step, goes_on, returned, parse_request, check_request, from_client, response_parsed_now,
  parse_response, check_status, from_backend, count_received, count_sent_found, count_sent,
  count_bytes, forget_request, complete_response, finish_found, finish_client, finish, after_send,
  relay, relayed, forward,
}
use loadbalancer.Forward.Http.Rejecting.{
  Settled, Quiet, QuietStep, put_state-Quiet, emit-Quiet, state_of-Settled, parse_request-QuietStep,
  check_request-QuietStep, then_do-QuietStep, response_read-Quiet,
}

response_parsed_now-QuietStep :
    (fd : ℕ) (r : Bool × Exchange) → Quiet r.1 → QuietStep (response_parsed_now fd r)
unfolding response_parsed_now
response_parsed_now-QuietStep fd (false, x) q = q
response_parsed_now-QuietStep fd (true, x) q =
    put_state-Quiet fd (record (state_of fd x) { response_parsed = true }) x
      (state_of-Settled fd x q) q

parse_response-QuietStep :
    (k : Callbacks) (fd : ℕ) (x : Exchange) → Quiet x → QuietStep (parse_response k fd x)
unfolding parse_response parse_and_modify_http_response
parse_response-QuietStep k fd x q =
    let s = state_of fd x in
    if-keeps QuietStep s.response_parsed (λ e. put_state-Quiet fd s x (state_of-Settled fd x q) q)
      (λ e. response_parsed_now-QuietStep fd _ (
        response_read-Quiet k fd s (ResponseParser.parse x.from.read_buf s.response_parser) x
          (state_of-Settled fd x q) q))

set_status-Quiet :
    (fd : ℕ) (s : HttpState) (o : Option ℕ) (x : Exchange)
    → Settled s
    → Quiet x
    → Quiet (set_status fd s o x)
unfolding set_status
set_status-Quiet fd s none x h q = q
set_status-Quiet fd s (some status) x h q =
    if-keeps Quiet (leb 100 status && ltb status 600) (λ e. put_state-Quiet fd _ x h q) (λ e. q)

status_in-Quiet :
    (fd : ℕ) (t : Text) (o : Option HttpState) (x : Exchange)
    → OnSome Settled o
    → Quiet x
    → Quiet (status_in fd t o x)
unfolding status_in
status_in-Quiet fd t none x h q = q
status_in-Quiet fd t (some s) x h q =
    if-keeps Quiet (ltb 0 s.request_info.status_code || ltb (length t) 12) (λ e. q)
      (λ e. set_status-Quiet fd s (find_status t) x h q)

check_status-QuietStep : (fd : ℕ) (x : Exchange) → Quiet x → QuietStep (check_status fd x)
unfolding check_status parse_response_status
check_status-QuietStep fd x q =
    if-keeps Quiet (nat_eq (state_of fd x).request_info.status_code 0)
      (λ e.
        status_in-Quiet fd x.from.read_buf (find fd x.http_states) x
          (find-OnSome Settled fd x.http_states q.0) q)
      (λ e. q)

from_client-QuietStep :
    (k : Callbacks) (fd : ℕ) (x : Exchange) → Quiet x → QuietStep (from_client k fd x)
unfolding from_client
from_client-QuietStep k fd x q =
    then_do-QuietStep (parse_request k fd x) (check_request k fd) (parse_request-QuietStep k fd x q)
      (λ y r. check_request-QuietStep k fd y r)

from_backend-QuietStep :
    (k : Callbacks) (o : Option ℕ) (x : Exchange) → Quiet x → QuietStep (from_backend k o x)
unfolding from_backend
from_backend-QuietStep k none x q = q
from_backend-QuietStep k (some fd) x q =
    then_do-QuietStep (parse_response k fd x) (check_status fd) (parse_response-QuietStep k fd x q)
      (λ y r. check_status-QuietStep fd y r)

count_received-Quiet :
    (fd n : ℕ) (o : Option HttpState) (x : Exchange)
    → OnSome Settled o
    → Quiet x
    → Quiet (count_received fd n o x)
unfolding count_received
count_received-Quiet fd n none x h q = q
count_received-Quiet fd n (some s) x h q = put_state-Quiet fd _ x h q

count_sent_found-Quiet :
    (fd n : ℕ) (o : Option HttpState) (x : Exchange)
    → OnSome Settled o
    → Quiet x
    → Quiet (count_sent_found fd n o x)
unfolding count_sent_found
count_sent_found-Quiet fd n none x h q = q
count_sent_found-Quiet fd n (some s) x h q = put_state-Quiet fd _ x h q

count_sent-Quiet : (n : ℕ) (o : Option ℕ) (x : Exchange) → Quiet x → Quiet (count_sent n o x)
unfolding count_sent
count_sent-Quiet n none x q = q
count_sent-Quiet n (some fd) x q =
    count_sent_found-Quiet fd n (find fd x.http_states) x (find-OnSome Settled fd x.http_states q.0)
      q

count_bytes-Quiet :
    (http : Bool) (k : Callbacks) (fd n : ℕ) (x : Exchange)
    → Quiet x
    → Quiet (count_bytes http k fd n x)
unfolding count_bytes
count_bytes-Quiet true k fd n x q =
    count_received-Quiet fd n (find fd x.http_states) x (find-OnSome Settled fd x.http_states q.0) q
count_bytes-Quiet false k fd n x q = count_sent-Quiet n (k.get_client_fd fd) x q

finish_found-Quiet :
    (k : Callbacks) (fd : ℕ) (o : Option HttpState) (x : Exchange)
    → OnSome Settled o
    → Quiet x
    → Quiet (finish_found k fd o x)
unfolding finish_found complete_response forget_request
finish_found-Quiet k fd none x h q = q
finish_found-Quiet k fd (some s) x h q =
    let i = record (s.request_info) { response_complete_time = k.now; response_complete = true } in
    if-keeps Quiet
      (ltb 0 s.request_info.status_code
        && (is_empty x.from.read_buf && not s.request_info.response_complete))
      (λ e.
        if-keeps Quiet k.logs
          (λ f.
            put_state-Quiet fd _ (emit (access_log fd i ∷ []) x) (inl refl)
              (emit-Quiet (access_log fd i ∷ []) x (refl, tt) q))
          (λ f. put_state-Quiet fd (record s { request_info = i }) x h q))
      (λ e. q)

finish_client-Quiet :
    (k : Callbacks) (o : Option ℕ) (x : Exchange) → Quiet x → Quiet (finish_client k o x)
unfolding finish_client
finish_client-Quiet k none x q = q
finish_client-Quiet k (some fd) x q =
    finish_found-Quiet k fd (find fd x.http_states) x (find-OnSome Settled fd x.http_states q.0) q

finish-Quiet :
    (http : Bool) (k : Callbacks) (fd : ℕ) (x : Exchange) → Quiet x → Quiet (finish http k fd x)
unfolding finish
finish-Quiet true k fd x q = q
finish-Quiet false k fd x q = finish_client-Quiet k (k.get_client_fd fd) x q

after_send-Quiet :
    (http : Bool) (k : Callbacks) (fd pending : ℕ) (x : Exchange)
    (r : Connection × MemoryBudget × Bool)
    → Quiet x
    → Quiet (after_send http k fd pending x r)
unfolding after_send
after_send-Quiet http k fd pending x (to, b, false) q =
    emit-Quiet (asks (close_connection to.fd) ∷ []) (record x { to = to; budget = b }) (refl, tt) q
after_send-Quiet http k fd pending x (to, b, true) q =
    let pressure =
      if has_pending_send to pending
      then start_backpressure (some fd)
      else clear_backpressure (some fd) in
    finish-Quiet http k fd _
      (emit-Quiet (asks pressure ∷ []) (record x { to = to; budget = b }) (refl, tt) q)

relay-Quiet :
    (http : Bool) (k : Callbacks) (socket : List ℕ → Sent) (pending fd : ℕ) (x : Exchange)
    → Quiet x
    → Quiet (relay http k socket pending fd x)
unfolding relay
relay-Quiet http k socket pending fd x q =
    let n = min (length x.from.read_buf) (write_available x.to) in
    let y = count_bytes http k fd n x in
    if-keeps Quiet (nat_eq n 0) (λ e. emit-Quiet _ x (refl, (refl, tt)) q)
      (λ e.
        after_send-Quiet http k fd pending _ (write_to_fd socket (moved_to n x.from x.to) x.budget)
          (emit-Quiet _ (record y { from = moved_from n x.from }) (refl, (refl, tt))
            (count_bytes-Quiet http k fd n x q)))

relayed-Quiet :
    (http : Bool) (k : Callbacks) (socket : List ℕ → Sent) (pending fd : ℕ) (o : Step)
    → QuietStep o
    → Quiet (relayed http k socket pending fd o)
unfolding relayed
relayed-Quiet http k socket pending fd (goes_on x) q = relay-Quiet http k socket pending fd x q
relayed-Quiet http k socket pending fd (returned x) q = q

-- Where a request that counts as read has no error, for every client, this is so after any call of
-- `forward`, and the call neither counts a bad request nor answers one by 400, whatever was read: the
-- branch that does is never taken.
pub forward-Quiet :
    (k : Callbacks) (socket : List ℕ → Sent) (pending fd : ℕ) (x : Exchange)
    → Quiet x
    → Quiet (forward k socket pending fd x)
unfolding forward
forward-Quiet k socket pending fd x q =
    let http = is_http_request x.from.read_buf in
    if-keeps Quiet (not (is_established x.from.state && is_established x.to.state)) (λ e. q)
      (λ e.
        if-keeps Quiet (is_empty x.from.read_buf) (λ f. q)
          (λ f.
            relayed-Quiet http k socket pending fd
              (if http then from_client k fd x else from_backend k (k.get_client_fd fd) x)
              (if-keeps QuietStep http (λ g. from_client-QuietStep k fd x q)
                (λ g. from_backend-QuietStep k (k.get_client_fd fd) x q))))
