-- ===== src/Http/RequestParser/Tests.antt =====
-- A small request and its parse.
use loadbalancer.Base.{
  ◌≡◌, ◌++◌, refl, true, false, some, [], ◌∷◌, inl, inr, arith, Text, bytes, crlf, length, find,
  stoul,
}
use loadbalancer.Http.Message.{
  HttpRequest, new_request, get, post, http_1_1, method_from_string, or_unknown_method,
}
use loadbalancer.Http.RequestParser.{
  parse_from, parse_lines, on_line, continue, parse_request_line, with_method, with_target,
  with_version, set_target, next_line, fail, HttpRequestParser, new_parser, Parsed, parse, complete,
}
use loadbalancer.Http.RequestParser.Total.{Sound, parse_total}
use loadbalancer.Http.RequestParser.Split.{Words, parse_split}
use loadbalancer.Http.RequestParser.Headers.{reading}
use loadbalancer.Http.RequestParser.RequestLine.{IsPlain}
use loadbalancer.Http.RequestParser.RoundTrip.{parse-serialize_http_request}
use loadbalancer.Http.RequestParser.Serialized.{serialize_http_request}

abbrev form : HttpRequest
form = record {
  method = post;
  path = bytes "/a";
  query_string = bytes "q";
  version = http_1_1;
  headers = (bytes "Host", bytes "h") ∷ (bytes "Content-Length", bytes "2") ∷ [];
  body = bytes "hi";
}

form-IsPlain : IsPlain form
unfolding find stoul
form-IsPlain = record {
  path_full = refl;
  path_solid = search;
  path_plain = omega arith;
  query_solid = search;
  version_known = λ e. cc;
  headers_plain = (
    (omega arith, omega arith, omega arith, refl),
    ((omega arith, omega arith, omega arith, refl), tt),
  );
  names = (refl, (refl, tt));
  length_declared = inl (refl, inr (2, refl, refl, refl));
}

parse-serialize_http_request_example :
    parse (serialize_http_request form ++ bytes "GET ") new_parser
    ≡ some (
      true,
      length (serialize_http_request form),
      record (reading form form.headers 2) { state = complete },
    )
parse-serialize_http_request_example = parse-serialize_http_request form (bytes "GET ") form-IsPlain

abbrev first_line : Text
first_line = bytes "GET /a HTTP/1.1"

first_line_Words : Words first_line
first_line_Words = record {
  method = bytes "GET";
  target = bytes "/a";
  version = bytes "HTTP/1.1";
  behind_method = bytes " /a HTTP/1.1";
  behind_target = bytes " HTTP/1.1";
  behind = [];
  first = refl;
  second = refl;
  third = refl;
}

parse_total_example : (r : Parsed) × (parse (first_line ++ crlf) new_parser ≡ some r) × Sound 17 r
parse_total_example = parse_total (first_line ++ crlf) new_parser

parse_split_example :
    (p q : HttpRequestParser) × (parse (first_line ++ (crlf ++ [])) new_parser
      ≡ some (false, 17, p))
    × (parse (first_line ++ (crlf ++ bytes "Host: h")) p ≡ some (false, 17, q))
    × (q.error_message ≡ bytes "Invalid header format")
    × ((later : Text) → parse later q ≡ some (false, 0, q))
parse_split_example =
    parse_split first_line (bytes "Host: h") (omega arith, omega arith) (omega arith)
      first_line_Words

abbrev garbled : Text
garbled = bytes "GET /a"

garbled_run :
    parse (garbled ++ crlf) new_parser
    ≡ some (
      false,
      8,
      record new_parser {
        request = record new_request { method = get; path = bytes "/a" };
        has_error = true;
        error_message = bytes "Missing HTTP version";
      },
    )
unfolding parse new_parser parse_from parse_lines on_line continue parse_request_line with_method
    with_target with_version set_target next_line fail method_from_string or_unknown_method find
garbled_run = refl
