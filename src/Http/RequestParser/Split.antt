-- ===== src/Http/RequestParser/Split.antt =====
-- A request that HttpRequestParser::parse (src/http/http_request.cpp) sees in two pieces.
use loadbalancer.Base.{
  ℕ, zero, suc, ◌<◌, ◌+◌, ◌≡◌, refl, ap, ◌∙◌, true, false, some, [], ◌∷◌, ◌++◌, arith, length,
  length-append, Text, Lacks, index_of, index_of-none, bytes, crlf, read_word, is_empty,
}
use loadbalancer.Http.Message.{method_from_string, version_from_string}
use loadbalancer.Http.RequestParser.{
  next_line, headers, HttpRequestParser, new_parser, fail, set_target, with_version, with_target,
  with_method, parse_request_line, parse_header, header_at, continue, on_header, on_line,
  parse_lines, parse_from, parse,
}
use loadbalancer.Http.RequestParser.Lines.{OneLine, next_line-append}

-- The three words of a request line.
pub record Words (line : Text) : Type 0 where
  pub method : Text
  pub target : Text
  pub version : Text
  pub behind_method : Text
  pub behind_target : Text
  pub behind : Text
  pub first : read_word line ≡ some (method, behind_method)
  pub second : read_word behind_method ≡ some (target, behind_target)
  pub third : read_word behind_target ≡ some (version, behind)

-- The parser behind a request line.
abbrev pub after_words : {line : Text} → Words line → HttpRequestParser → HttpRequestParser
after_words w p = record p {
  request =
      record (set_target w.target (index_of b'?' w.target)
        (record (p.request) { method = method_from_string w.method })) {
          version = version_from_string w.version;
        };
}

pub parse_request_line-Words :
    (line : Text) (w : Words line) (p : HttpRequestParser)
    → parse_request_line line p ≡ (true, after_words w p)
unfolding parse_request_line with_method with_target with_version
parse_request_line-Words line w p = rw (w.first) (rw (w.second) (rw (w.third) refl))

pub parse_lines-line :
    (fuel consumed : ℕ) (line rest : Text) (p : HttpRequestParser)
    → OneLine line
    → parse_lines (suc fuel) consumed (line ++ (crlf ++ rest)) p
      ≡ on_line
          (parse_lines fuel (consumed + (length line + 2)) rest)
          p.state
          (consumed + (length line + 2))
          (record { text = line; size = length line + 2; rest = rest })
          p
unfolding parse_lines
parse_lines-line fuel consumed line rest p h = rw (next_line-append line rest h, parse_lines) refl

one_more : (n : ℕ) → n + 1 ≡ suc n
one_more n = omega arith

pub parse_lines-nil :
    (fuel consumed : ℕ) (p : HttpRequestParser)
    → 0 < fuel
    → parse_lines fuel consumed [] p ≡ some (false, consumed, p)
unfolding parse_lines next_line
parse_lines-nil zero consumed p h = let x : ⊥ = omega arith in elim x [ ]
parse_lines-nil (suc fuel) consumed p h = refl

-- The request line, then the rest of the buffer.
pub parse-Words :
    (line rest : Text) (w : Words line)
    → OneLine line
    → parse (line ++ (crlf ++ rest)) new_parser
      ≡ parse_lines
          (length (line ++ (crlf ++ rest)))
          (length line + 2)
          rest
          (record (after_words w new_parser) { state = headers })
unfolding parse parse_from new_parser on_line continue
parse-Words line rest w h =
    let buffer = line ++ (crlf ++ rest) in
    ap (λ n. parse_lines n 0 buffer new_parser) (one_more (length buffer))
    ∙ parse_lines-line (length buffer) 0 line rest new_parser h
    ∙ rw (parse_request_line-Words line w new_parser) (
        ap
          (λ n.
            parse_lines (length buffer) n rest
              (record (after_words w new_parser) { state = headers }))
          (omega arith))

-- A parser that waits for headers.
abbrev waiting : HttpRequestParser → HttpRequestParser
waiting p = record p { state = headers; has_error = false }

rejected_line :
    (line rest : Text) (p : HttpRequestParser)
    → OneLine line
    → Lacks b':' line
    → is_empty line ≡ false
    → parse (line ++ (crlf ++ rest)) (waiting p)
      ≡ some (false, length line + 2, (fail (bytes "Invalid header format") (waiting p)).1)
unfolding parse parse_from on_line on_header continue parse_header header_at fail
rejected_line line rest p h k n =
    let buffer = line ++ (crlf ++ rest) in
    ap (λ n. parse_lines n 0 buffer (waiting p)) (one_more (length buffer))
    ∙ parse_lines-line (length buffer) 0 line rest (waiting p) h
    ∙ rw n (
        rw (index_of-none b':' line k) (
          ap (λ n. some (false, n, (fail (bytes "Invalid header format") (waiting p)).1))
            (omega arith)))

Words-is_empty : (line : Text) → Words line → is_empty line ≡ false
Words-is_empty [] w = let e = w.first in cc
Words-is_empty (c ∷ s) w = refl

-- A request line of three words without a colon, CR or LF that arrives before the rest is read, and
-- `parse` waits. The forwarder gives it the buffer again from the start, and the same line is then
-- taken for a header: whatever follows it, the parser has an error, and after that no buffer helps.
pub parse_split :
    (line more : Text)
    → OneLine line
    → Lacks b':' line
    → Words line
    → (p q : HttpRequestParser) × (parse (line ++ (crlf ++ [])) new_parser
        ≡ some (false, length line + 2, p))
      × (parse (line ++ (crlf ++ more)) p ≡ some (false, length line + 2, q))
      × (q.error_message ≡ bytes "Invalid header format")
      × ((later : Text) → parse later q ≡ some (false, 0, q))
unfolding parse fail new_parser
parse_split line more h k w =
    let p = waiting (after_words w new_parser) in
    (
      p,
      (fail (bytes "Invalid header format") p).1,
      parse-Words line [] w h
          ∙ parse_lines-nil (length (line ++ (crlf ++ []))) (length line + 2) p
              (omega (arith, length-append line crlf)),
      rejected_line line more (after_words w new_parser) h k (Words-is_empty line w),
      refl,
      λ later. refl,
    )
