-- ===== src/Http/RequestParser/Serialized.antt =====
-- serialize_http_request of src/core/http_data_forwarder.cpp: what is sent on of a request.
use loadbalancer.Base.{[], ◌∷◌, ◌++◌, Text, Map, bytes, crlf, is_empty, if◌then◌else◌}
use loadbalancer.Http.Message.{HttpRequest, method_to_string, version_to_string}

-- The path, with the query string where there is one.
unfoldable pub target : HttpRequest → Text
target r = if is_empty r.query_string then r.path else r.path ++ b'?' ∷ r.query_string

unfoldable pub print_headers : Map Text Text → Text
print_headers [] = []
print_headers ((name, value) ∷ headers) =
    name ++ (bytes ": " ++ (value ++ (crlf ++ print_headers headers)))

unfoldable pub print_line : HttpRequest → Text
unfolding target
print_line r =
    method_to_string r.method ++ (b' ' ∷ (target r ++ (b' ' ∷ version_to_string r.version)))

unfoldable pub serialize_http_request : HttpRequest → Text
unfolding print_line print_headers
serialize_http_request r = print_line r ++ (crlf ++ (print_headers r.headers ++ (crlf ++ r.body)))
