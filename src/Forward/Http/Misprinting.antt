-- ===== src/Forward/Http/Misprinting.antt =====
-- A response that HttpDataForwarder (src/core/http_data_forwarder.cpp) reads whole and prints again.
use loadbalancer.Base.{
  ℕ, ◌≡◌, ◌-◌, Bool, true, false, some, ◌++◌, Option, none, length, ltb, Text, bytes, read_word,
  if-keeps,
}
use loadbalancer.Net.Connection.{Connection, try_reserve_additional_bytes}
use loadbalancer.Memory.{MemoryBudget}
use loadbalancer.Http.Message.{HttpVersion, version_to_string, version_from_string, unknown_version}
use loadbalancer.Http.ResponseParser.{serialize_http_response}
use loadbalancer.Http.ResponseParser
use loadbalancer.Http.ResponseParser.Printed.{serialize_http_response_misprints}
use loadbalancer.Forward.Http.State.{Callbacks, HttpState, Exchange}
use loadbalancer.Forward.Http.Parsing.{
  state_of, edit_response, resized, released, replace_buffer, response_read,
  parse_and_modify_http_response,
}

-- The first word is `HTTP/` and then a version that is printed with `HTTP/`, which no parser here
-- knows.
abbrev pub IsDoubled : Text → Type 0
IsDoubled s =
    (v : HttpVersion) × (rest : Text) × (read_word s
      ≡ some (bytes "HTTP/" ++ version_to_string v, rest))
    × (version_from_string (bytes "HTTP/" ++ version_to_string v) ≡ unknown_version)

-- What a success leaves to be sent on is such a message.
abbrev pub LeavesDoubled : Bool × Exchange → Type 0
LeavesDoubled (true, x) = IsDoubled x.from.read_buf
LeavesDoubled (false, x) = Unit

resized-LeavesDoubled :
    (s : Text) (x : Exchange) (r : Connection × MemoryBudget × Bool)
    → IsDoubled s
    → LeavesDoubled (resized s x r)
unfolding resized
resized-LeavesDoubled s x (c, b, true) h = h
resized-LeavesDoubled s x (c, b, false) h = tt

replace_buffer-LeavesDoubled :
    (s : Text) (x : Exchange) → IsDoubled s → LeavesDoubled (replace_buffer s x)
unfolding replace_buffer released
replace_buffer-LeavesDoubled s x h =
    let before = length x.from.read_buf in
    let after = length s in
    if-keeps LeavesDoubled (ltb before after)
      (λ e.
        resized-LeavesDoubled s x (try_reserve_additional_bytes (after - before) x.from x.budget) h)
      (λ e. if-keeps LeavesDoubled (ltb after before) (λ f. h) (λ f. h))

response_read-LeavesDoubled :
    (k : Callbacks) (fd : ℕ) (s : HttpState) (o : Option ResponseParser.Parsed) (x : Exchange)
    → LeavesDoubled (response_read k fd s o x)
unfolding response_read
response_read-LeavesDoubled k fd s none x = tt
response_read-LeavesDoubled k fd s (some (false, consumed, p)) x = tt
response_read-LeavesDoubled k fd s (some (true, consumed, p)) x =
    let r = edit_response k fd p.response in
    let (rest, first, unknown) = serialize_http_response_misprints r in
    replace_buffer-LeavesDoubled (serialize_http_response r) _ (r.version, rest, first, unknown)

-- Whatever the state of the client, the buffer, the budget and the callbacks: where
-- `parse_and_modify_http_response` succeeds, the message that it leaves to be sent on begins with
-- `HTTP/` twice, since the version is printed with `HTTP/` included, and no parser here knows that
-- word as a version.
pub parse_and_modify_http_response-LeavesDoubled :
    (k : Callbacks) (fd : ℕ) (x : Exchange) → LeavesDoubled (parse_and_modify_http_response k fd x)
unfolding parse_and_modify_http_response
parse_and_modify_http_response-LeavesDoubled k fd x =
    let s = state_of fd x in
    response_read-LeavesDoubled k fd s (ResponseParser.parse x.from.read_buf s.response_parser) x
