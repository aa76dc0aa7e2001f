-- ===== src/Http/Handler/Responses.antt =====
-- apply_custom_headers of src/http/http_handler.cpp on a response of a backend.
use loadbalancer.Base.{List, Text, Map}
use loadbalancer.Http.Handler.{edit_headers}
use loadbalancer.Http.ResponseParser.{ParsedHttpResponse}

pub edit_response_headers : Map Text Text → List Text → ParsedHttpResponse → ParsedHttpResponse
unfolding edit_headers
edit_response_headers headers_to_add headers_to_remove r = record r {
  headers = edit_headers headers_to_add headers_to_remove r.headers;
}
