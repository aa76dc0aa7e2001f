-- ===== src/Http/RequestParser/RoundTrip.antt =====
-- A request that src/core/http_data_forwarder.cpp serializes, read back by src/http/http_request.cpp.
use mathlib.Core.List.{append_assoc}
use loadbalancer.Base.{
  ℕ, suc, ◌+◌, ◌<◌, ◌≤◌, ◌≡◌, ap, ◌∙◌, true, some, [], ◌∷◌, ◌++◌, arith, length, length-append,
  Text, Map, text_keys, crlf, take-append, nat_eq-false, le→ltb_false,
}
use loadbalancer.Http.Message.{HttpRequest}
use loadbalancer.Http.RequestParser.{
  body, complete, new_parser, at_body, parse_body, completed, parse_lines, parse,
}
use loadbalancer.Http.RequestParser.RequestLine.{
  IsPlain, print_line-Words, print_line-OneLine, after_line,
}
use loadbalancer.Http.RequestParser.Split.{parse-Words}
use loadbalancer.Http.RequestParser.Headers.{length-print_headers, reading, headers_read}
use loadbalancer.Http.RequestParser.Serialized.{print_headers, print_line, serialize_http_request}

-- The body is what is declared.
parse_body-append :
    (r : HttpRequest) (hs : Map Text Text) (b rest : Text) (consumed : ℕ)
    → parse_body consumed
        (b ++ rest)
        (record (reading (record r { body = [] }) hs (length b)) { state = body })
      ≡ (
        true,
        consumed + length b,
        record (reading (record r { body = b }) hs (length b)) { state = body },
      )
unfolding parse_body
parse_body-append r hs [] rest consumed =
    ap (λ n. (true, n, record (reading (record r { body = [] }) hs 0) { state = body }))
      (omega arith)
parse_body-append r hs (c ∷ b) rest consumed =
    rw
      (
        nat_eq-false (suc (length b)) 0 (omega arith),
        le→ltb_false (length (c ∷ b ++ rest)) (suc (length b))
            (omega (arith, length-append b rest)),
      )
      (ap
        (λ t. (
          true,
          consumed + suc (length b),
          record (reading (record r { body = t }) hs (suc (length b))) { state = body },
        ))
        (take-append (c ∷ b) rest))

serialize_http_request-append :
    (r : HttpRequest) (rest : Text)
    → serialize_http_request r ++ rest
      ≡ print_line r ++ (crlf ++ (print_headers r.headers ++ (crlf ++ (r.body ++ rest))))
unfolding serialize_http_request
serialize_http_request-append r rest = simp append_assoc

length-serialize_http_request :
    (r : HttpRequest)
    → length (serialize_http_request r)
      ≡ length (print_line r) + 2 + (length (print_headers r.headers) + 2) + length r.body
unfolding serialize_http_request
length-serialize_http_request r =
    length-append (print_line r) (crlf ++ (print_headers r.headers ++ (crlf ++ r.body)))
    ∙ omega (arith, length-append (print_headers r.headers) (crlf ++ r.body))

length-le-print_headers : (hs : Map Text Text) → length hs ≤ length (print_headers hs)
unfolding print_headers
length-le-print_headers [] = omega arith
length-le-print_headers ((name, value) ∷ hs) =
    omega (arith, length-le-print_headers hs, length-print_headers name value hs)

-- A request has a path without `?`, white space neither in it nor in the query, a known version, and
-- headers of distinct names that can be told from their text and declare the length of the body. Then a
-- new parser reads it from any buffer that begins with its serialization: `parse` answers `true`, has
-- consumed just the serialization, and holds the same request.
pub parse-serialize_http_request :
    (r : HttpRequest) (rest : Text)
    → IsPlain r
    → parse (serialize_http_request r ++ rest) new_parser
      ≡ some (
        true,
        length (serialize_http_request r),
        record (reading r r.headers (length r.body)) { state = complete },
      )
unfolding at_body
parse-serialize_http_request r rest h =
    let line = print_line r in
    let hs = r.headers in
    let buffer = line ++ (crlf ++ (print_headers hs ++ (crlf ++ (r.body ++ rest)))) in
    let fuel = length buffer in
    let at = length line + 2 in
    let start = reading (record r { body = [] }) [] 0 in
    let done = record (reading r hs (length r.body)) { state = complete } in
    let enough : length hs < fuel = omega (
      arith,
      length-le-print_headers hs,
      length-append line (crlf ++ (print_headers hs ++ (crlf ++ (r.body ++ rest)))),
      length-append (print_headers hs) (crlf ++ (r.body ++ rest)),
    ) in
    let total : at + (length (print_headers hs) + 2) + length r.body
        ≡ length (serialize_http_request r) =
      omega (arith, length-serialize_http_request r) in
    ap (λ s. parse s new_parser) (serialize_http_request-append r rest)
    ∙ parse-Words line (print_headers hs ++ (crlf ++ (r.body ++ rest))) (print_line-Words r h)
        (print_line-OneLine r h)
    ∙ ap (parse_lines fuel at (print_headers hs ++ (crlf ++ (r.body ++ rest)))) (after_line r h)
    ∙ headers_read (record r { body = [] }) hs [] 0 (length r.body) fuel at (r.body ++ rest)
        h.headers_plain h.names h.length_declared enough
    ∙ ap (λ b. some (completed b))
        (parse_body-append r hs r.body rest (at + (length (print_headers hs) + 2)))
    ∙ ap (λ n. some (true, n, done)) total
