-- ===== src/Http/ResponseParser.antt =====
-- HttpResponseParser of src/http/http_response_parser.cpp: the loop over the lines is the one of the
-- request parser, the status line and the body are its own.
pub mod Printed
pub mod Total
mod Tests
use loadbalancer.Base.{
  ℕ, zero, suc, ◌+◌, ltb, min, Bool, true, false, Option, none, some, [], ◌∷◌, ◌++◌, length, Text,
  text_keys, bytes, crlf, Map, assign, index_of, take, drop, drop_while, nat_eq, is_empty,
  if◌then◌else◌, read_word, stoul, ℤ, pos, stoi, decimal_int,
}
use loadbalancer.Http.Message.{HttpVersion, http_1_1, version_from_string, version_to_string}
use loadbalancer.Http.RequestParser.{Line, next_line, is_blank, trim, is_content_length}
use loadbalancer.Http.RequestParser.Serialized.{print_headers}

pub record ParsedHttpResponse : Type 0 where
  pub status_code : ℤ
  pub reason_phrase : Text
  pub version : HttpVersion
  pub headers : Map Text Text
  pub body : Text

abbrev pub new_response : ParsedHttpResponse
new_response = record {
  status_code = pos 200;
  reason_phrase = bytes "OK";
  version = http_1_1;
  headers = [];
  body = [];
}

pub data ParseState : Type 0 where
  status_line headers body complete : ParseState

pub record HttpResponseParser : Type 0 where
  pub response : ParsedHttpResponse
  pub state : ParseState
  pub has_error : Bool
  pub error_message : Text
  pub content_length : ℕ

abbrev pub new_parser : HttpResponseParser
new_parser = record {
  response = new_response;
  state = status_line;
  has_error = false;
  error_message = [];
  content_length = 0;
}

fail : Text → HttpResponseParser → Bool × HttpResponseParser
fail message p = (false, record p { has_error = true; error_message = message })

with_code : Text → Option ℤ → HttpResponseParser → Bool × HttpResponseParser
with_code rest none p = fail (bytes "Invalid status code") p
with_code rest (some code) p = (
  true,
  record p {
    response = record (p.response) { status_code = code; reason_phrase = drop_while is_blank rest };
  },
)

with_status : Text → Option (Text × Text) → HttpResponseParser → Bool × HttpResponseParser
with_status version none p = fail (bytes "Invalid status line") p
with_status version (some (status, rest)) p =
    with_code rest (stoi status)
      (record p { response = record (p.response) { version = version_from_string version } })

with_words : Option (Text × Text) → HttpResponseParser → Bool × HttpResponseParser
with_words none p = fail (bytes "Invalid status line") p
with_words (some (version, rest)) p = with_status version (read_word rest) p

parse_status_line : Text → HttpResponseParser → Bool × HttpResponseParser
parse_status_line line p = with_words (read_word line) p

set_content_length : Option ℕ → HttpResponseParser → Bool × HttpResponseParser
set_content_length none p = fail (bytes "Invalid Content-Length") p
set_content_length (some n) p = (true, record p { content_length = n })

add_header : Text → Text → HttpResponseParser → Bool × HttpResponseParser
add_header name value p =
    let p' = record p {
      response = record (p.response) { headers = assign name value p.response.headers };
    } in
    if is_content_length name then set_content_length (stoul value) p' else (true, p')

header_at : Text → Option ℕ → HttpResponseParser → Bool × HttpResponseParser
header_at line none p = fail (bytes "Invalid header format") p
header_at line (some colon) p = add_header (take colon line) (trim (drop (colon + 1) line)) p

parse_header : Text → HttpResponseParser → Bool × HttpResponseParser
parse_header line p = header_at line (index_of b':' line) p

abbrev pub Parsed : Type 0
Parsed = Bool × ℕ × HttpResponseParser

abbrev with_body : Text → HttpResponseParser → HttpResponseParser
with_body b p = record p { response = record (p.response) { body = b } }

-- What there is of the declared length, or all of `rest`, the buffer from `consumed` on.
parse_body : ℕ → Text → HttpResponseParser → Parsed
parse_body consumed rest p =
    let body_to_read = min (length rest) p.content_length in
    if ltb 0 p.content_length
    then (
      nat_eq (length (take body_to_read rest)) p.content_length,
      consumed + body_to_read,
      with_body (take body_to_read rest) p,
    )
    else (true, consumed + length rest, with_body rest p)

abbrev pub completed : Parsed → Parsed
completed (false, consumed, p) = (false, consumed, p)
completed (true, consumed, p) = (true, consumed, record p { state = complete })

at_body : ℕ → Text → HttpResponseParser → Parsed
at_body consumed rest p = completed (parse_body consumed rest p)

continue : (HttpResponseParser → Option Parsed) → ℕ → Bool × HttpResponseParser → Option Parsed
continue next consumed (true, p) = next (record p { state = headers })
continue next consumed (false, p) = some (false, consumed, p)

on_header : (HttpResponseParser → Option Parsed) → ℕ → Line → HttpResponseParser → Option Parsed
on_header next consumed l p =
    if is_empty l.text
    then some (at_body consumed l.rest (record p { state = body }))
    else continue next consumed (parse_header l.text p)

on_line :
    (HttpResponseParser → Option Parsed)
    → ParseState
    → ℕ
    → Line
    → HttpResponseParser
    → Option Parsed
on_line next status_line consumed l p = continue next consumed (parse_status_line l.text p)
on_line next headers consumed l p = on_header next consumed l p
on_line next body consumed l p = some (at_body consumed l.rest p)
on_line next complete consumed l p = some (true, consumed, p)

-- `none` means that the fuel ran out.
parse_lines : ℕ → ℕ → Text → HttpResponseParser → Option Parsed
parse_lines zero consumed rest p = none
parse_lines (suc fuel) consumed rest p = elim (next_line rest) [
  | none ↦ some (false, consumed, p)
  | some l ↦ on_line (parse_lines fuel (consumed + l.size) l.rest) p.state (consumed + l.size) l p
]

parse_from : ParseState → Text → HttpResponseParser → Option Parsed
parse_from status_line buffer p = parse_lines (length buffer + 1) 0 buffer p
parse_from headers buffer p = parse_lines (length buffer + 1) 0 buffer p
parse_from body buffer p = some (at_body 0 buffer p)
parse_from complete buffer p = some (true, 0, p)

pub parse : Text → HttpResponseParser → Option Parsed
parse buffer p = if p.has_error then some (false, 0, p) else parse_from p.state buffer p

-- `HttpDataForwarder::serialize_http_response` of src/core/http_data_forwarder.cpp.
pub serialize_http_response : ParsedHttpResponse → Text
serialize_http_response r =
    bytes "HTTP/"
    ++ (version_to_string r.version
        ++ (b' '
            ∷ (decimal_int r.status_code
                ++ (b' ' ∷ r.reason_phrase
                    ++ (crlf ++ (print_headers r.headers ++ (crlf ++ r.body)))))))
