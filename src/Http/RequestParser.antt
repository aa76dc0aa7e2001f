-- ===== src/Http/RequestParser.antt =====
-- HttpRequestParser of src/http/http_request.cpp. The buffer is given whole at each call of `parse`.
pub mod Lines
pub mod Serialized
pub mod Split
pub mod Headers
pub mod RequestLine
mod Tests
pub mod RoundTrip
pub mod Errors
pub mod Total
use loadbalancer.Base.{
  ℕ, zero, suc, ◌+◌, ◌-◌, Bool, true, false, not, ◌&&◌, ◌||◌, Option, none, some, List, [], ◌∷◌,
  ◌++◌, length, Text, text_keys, ◌==◌, bytes, Map, assign, index_of, take, drop, drop_while,
  drop_last_while, nat_eq, ltb, is_empty, if◌then◌else◌, read_word, stoul,
}
use loadbalancer.Http.Message.{
  HttpRequest, new_request, method_from_string, version_from_string, HttpMethod, HttpVersion,
}

-- A line of the buffer, its size with the end of line, and what follows.
pub record Line : Type 0 where
  pub text : Text
  pub size : ℕ
  pub rest : Text

abbrev longer : ℕ → Option Line → Option Line
longer c none = none
longer c (some l) = some (record { text = c ∷ l.text; size = l.size + 1; rest = l.rest })

-- CR counts only before LF.
abbrev after_cr : Text → Option Line
after_cr [] = none
after_cr (c ∷ s) = if nat_eq c 10 then some (record { text = []; size = 2; rest = s }) else none

unfoldable pub next_line : Text → Option Line
next_line [] = none
next_line (c ∷ s) =
    let later = next_line s in
    if nat_eq c 13
    then after_cr s
    else if nat_eq c 10
    then some (record { text = []; size = 1; rest = s })
    else longer c later

pub data ParseState : Type 0 where
  request_line headers body complete : ParseState

pub record HttpRequestParser : Type 0 where
  pub request : HttpRequest
  pub state : ParseState
  pub has_error : Bool
  pub error_message : Text
  pub content_length : ℕ

-- The constructor; `reset` gives the same.
unfoldable pub new_parser : HttpRequestParser
new_parser = record {
  request = new_request;
  state = request_line;
  has_error = false;
  error_message = [];
  content_length = 0;
}

unfoldable pub fail : Text → HttpRequestParser → Bool × HttpRequestParser
fail message p = (false, record p { has_error = true; error_message = message })

-- The path ends at `?`.
unfoldable pub set_target : Text → Option ℕ → HttpRequest → HttpRequest
set_target target none r = record r { path = target }
set_target target (some i) r = record r { path = take i target; query_string = drop (i + 1) target }

unfoldable pub with_version : Option (Text × Text) → HttpRequestParser → Bool × HttpRequestParser
unfolding fail
with_version none p = fail (bytes "Missing HTTP version") p
with_version (some (version, rest)) p =
    (true, record p { request = record (p.request) { version = version_from_string version } })

unfoldable pub with_target :
    Text → Option (Text × Text) → HttpRequestParser → Bool × HttpRequestParser
unfolding fail with_version set_target
with_target method none p = fail (bytes "Invalid request line") p
with_target method (some (target, rest)) p = with_version (read_word rest) (record p {
  request =
      set_target target (index_of b'?' target)
        (record (p.request) { method = method_from_string method });
})

unfoldable pub with_method : Option (Text × Text) → HttpRequestParser → Bool × HttpRequestParser
unfolding fail with_target
with_method none p = fail (bytes "Invalid request line") p
with_method (some (method, rest)) p = with_target method (read_word rest) p

unfoldable pub parse_request_line : Text → HttpRequestParser → Bool × HttpRequestParser
unfolding with_method
parse_request_line line p = with_method (read_word line) p

abbrev pub is_blank : ℕ → Bool
is_blank c = nat_eq c b' ' || nat_eq c 9

abbrev pub trim : Text → Text
trim s = drop_last_while is_blank (drop_while is_blank s)

unfoldable pub set_content_length : Option ℕ → HttpRequestParser → Bool × HttpRequestParser
unfolding fail
set_content_length none p = fail (bytes "Invalid Content-Length") p
set_content_length (some n) p = (true, record p { content_length = n })

abbrev pub is_content_length : Text → Bool
is_content_length name = name == bytes "Content-Length" || name == bytes "content-length"

unfoldable pub add_header : Text → Text → HttpRequestParser → Bool × HttpRequestParser
unfolding set_content_length
add_header name value p =
    let p' = record p {
      request = record (p.request) { headers = assign name value p.request.headers };
    } in
    if is_content_length name then set_content_length (stoul value) p' else (true, p')

unfoldable pub header_at : Text → Option ℕ → HttpRequestParser → Bool × HttpRequestParser
unfolding fail add_header
header_at line none p = fail (bytes "Invalid header format") p
header_at line (some colon) p = add_header (take colon line) (trim (drop (colon + 1) line)) p

unfoldable pub parse_header : Text → HttpRequestParser → Bool × HttpRequestParser
unfolding header_at
parse_header line p = header_at line (index_of b':' line) p

-- What a call gives: its result, the bytes consumed, and the parser.
abbrev pub Parsed : Type 0
Parsed = Bool × ℕ × HttpRequestParser

-- `rest` is the buffer from `consumed` on.
unfoldable pub parse_body : ℕ → Text → HttpRequestParser → Parsed
parse_body consumed rest p =
    if nat_eq p.content_length 0
    then (true, consumed, p)
    else if ltb (length rest) p.content_length
    then (false, consumed, p)
    else (
      true,
      consumed + p.content_length,
      record p { request = record (p.request) { body = take p.content_length rest } },
    )

abbrev pub completed : Parsed → Parsed
completed (false, consumed, p) = (false, consumed, p)
completed (true, consumed, p) = (true, consumed, record p { state = complete })

-- The state BODY, and what follows it.
unfoldable pub at_body : ℕ → Text → HttpRequestParser → Parsed
unfolding parse_body
at_body consumed rest p = completed (parse_body consumed rest p)

-- The loop goes on behind a line that was read well.
unfoldable pub continue :
    (HttpRequestParser → Option Parsed) → ℕ → Bool × HttpRequestParser → Option Parsed
continue next consumed (true, p) = next (record p { state = headers })
continue next consumed (false, p) = some (false, consumed, p)

unfoldable pub on_header :
    (HttpRequestParser → Option Parsed) → ℕ → Line → HttpRequestParser → Option Parsed
unfolding continue at_body
on_header next consumed l p =
    if is_empty l.text
    then some (at_body consumed l.rest (record p { state = body }))
    else continue next consumed (parse_header l.text p)

-- `consumed` is the end of the line.
unfoldable pub on_line :
    (HttpRequestParser → Option Parsed) → ParseState → ℕ → Line → HttpRequestParser → Option Parsed
unfolding continue on_header
on_line next request_line consumed l p = continue next consumed (parse_request_line l.text p)
on_line next headers consumed l p = on_header next consumed l p
on_line next body consumed l p = some (at_body consumed l.rest p)
on_line next complete consumed l p = some (true, consumed, p)

-- The loop; `none` means that the fuel ran out.
unfoldable pub parse_lines : ℕ → ℕ → Text → HttpRequestParser → Option Parsed
parse_lines zero consumed rest p = none
parse_lines (suc fuel) consumed rest p = elim (next_line rest) [
  | none ↦ some (false, consumed, p)
  | some l ↦ on_line (parse_lines fuel (consumed + l.size) l.rest) p.state (consumed + l.size) l p
]

unfoldable pub parse_from : ParseState → Text → HttpRequestParser → Option Parsed
unfolding parse_lines at_body
parse_from request_line buffer p = parse_lines (length buffer + 1) 0 buffer p
parse_from headers buffer p = parse_lines (length buffer + 1) 0 buffer p
parse_from body buffer p = some (at_body 0 buffer p)
parse_from complete buffer p = some (true, 0, p)

pub parse : Text → HttpRequestParser → Option Parsed
parse buffer p = if p.has_error then some (false, 0, p) else parse_from p.state buffer p
