-- ===== src/Forward/Http/Rewriting.antt =====
-- A request that HttpDataForwarder (src/core/http_data_forwarder.cpp) reads whole and sends on.
use loadbalancer.Base.{
  ℕ, ◌≡◌, refl, ap, ◌∙◌, Bool, true, false, none, ◌++◌, length, Text, ℕ_keys, find, ltb, if-keeps,
  ◌-◌,
}
use loadbalancer.Memory.{MemoryBudget}
use loadbalancer.Net.Connection.{Connection, try_reserve_additional_bytes}
use loadbalancer.Net.Connection.Room.{HasRoom, try_reserve_additional_bytes_grants}
use loadbalancer.Http.Message.{HttpRequest}
use loadbalancer.Http.RequestParser.{new_parser, parse}
use loadbalancer.Http.RequestParser.RequestLine.{IsPlain}
use loadbalancer.Http.RequestParser.RoundTrip.{parse-serialize_http_request}
use loadbalancer.Http.RequestParser.Serialized.{serialize_http_request}
use loadbalancer.Http.Handler.{is_http_request}
use loadbalancer.Forward.Http.State.{Callbacks, new_state, Exchange}
use loadbalancer.Forward.Http.Parsing.{
  put_state, emit, or_unknown, resized, released, replace_buffer, session_effects, edit_request,
  request_read, parse_and_modify_http_request,
}

-- The message is what is to be sent on.
abbrev pub Holds : Text → Bool × Exchange → Type 0
Holds message (ok, x) = (ok ≡ true) × (x.from.read_buf ≡ message)

resized-Holds :
    (message : Text) (x : Exchange) (r : Connection × MemoryBudget × Bool)
    → r.2 ≡ true
    → Holds message (resized message x r)
unfolding resized
resized-Holds message x (c, b, true) h = (refl, refl)
resized-Holds message x (c, b, false) h = cc

replace_buffer-Holds :
    (message : Text) (x : Exchange)
    → HasRoom (length message - length x.from.read_buf) x.budget
    → Holds message (replace_buffer message x)
unfolding replace_buffer released
replace_buffer-Holds message x h =
    let before = length x.from.read_buf in
    let after = length message in
    if-keeps (Holds message) (ltb before after)
      (λ e.
        resized-Holds message x (try_reserve_additional_bytes (after - before) x.from x.budget)
          (try_reserve_additional_bytes_grants (after - before) x.from x.budget h))
      (λ e. if-keeps (Holds message) (ltb after before) (λ f. (refl, refl)) (λ f. (refl, refl)))

-- The first request of a client, where the budget has no limit or its uint64_t limit has room for what
-- the edits add: a request that `parse` reads back is sent on edited, and of the read buffer nothing
-- else is left. What came behind the request, whatever it is, is dropped.
pub parse_and_modify_http_request-Holds :
    (k : Callbacks) (fd : ℕ) (r : HttpRequest) (rest : Text) (x : Exchange)
    → IsPlain r
    → find fd x.http_states ≡ none
    → x.from.read_buf ≡ serialize_http_request r ++ rest
    → is_http_request x.from.read_buf ≡ true
    → (let message = serialize_http_request (edit_request k (or_unknown (k.get_client_ip fd)) r) in
        HasRoom (length message - length x.from.read_buf) x.budget)
    → Holds
        (serialize_http_request (edit_request k (or_unknown (k.get_client_ip fd)) r))
        (parse_and_modify_http_request k fd x)
unfolding parse_and_modify_http_request request_read new_state
parse_and_modify_http_request-Holds k fd r rest x p n e g h =
    let ip = or_unknown (k.get_client_ip fd) in
    let q = edit_request k ip r in
    let read = ap (λ s. parse s new_parser) e ∙ parse-serialize_http_request r rest p in
    rw (g, n, read)
      (replace_buffer-Holds (serialize_http_request q)
        (emit (session_effects k fd q) (put_state fd _ x)) h)
