-- ===== src/Http/ResponseParser/Tests.antt =====
-- A response of a backend.
use loadbalancer.Base.{
  ◌≡◌, refl, true, false, some, [], ◌∷◌, ◌++◌, Text, text_keys, bytes, crlf, pos, assign, stoul,
  stoi,
}
use loadbalancer.Http.Message.{http_1_1, version_from_string}
use loadbalancer.Http.RequestParser.{next_line}
use loadbalancer.Http.ResponseParser.{
  parse, parse_from, parse_lines, on_line, on_header, continue, parse_status_line, with_words,
  with_status, with_code, parse_header, header_at, add_header, set_content_length, at_body,
  parse_body, new_parser, complete, HttpResponseParser,
}

abbrev answer : Text
answer =
    bytes "HTTP/1.1 404 Not Found"
    ++ (crlf ++ (bytes "Content-Length: 4" ++ (crlf ++ (crlf ++ bytes "gone"))))

abbrev parsed : HttpResponseParser
parsed = record {
  response = record {
    status_code = pos 404;
    reason_phrase = bytes "Not Found";
    version = http_1_1;
    headers = (bytes "Content-Length", bytes "4") ∷ [];
    body = bytes "gone";
  };
  state = complete;
  has_error = false;
  error_message = [];
  content_length = 4;
}

answer_run : parse answer new_parser ≡ some (true, 49, parsed)
unfolding parse parse_from parse_lines on_line on_header continue parse_status_line with_words
    with_status with_code parse_header header_at add_header set_content_length at_body parse_body
    version_from_string next_line assign stoul stoi
answer_run = refl
