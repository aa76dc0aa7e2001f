-- ===== src/Http/RequestParser/Errors.antt =====
-- HttpRequestParser::parse of src/http/http_request.cpp answers `true` only where it met no error.
use loadbalancer.Base.{
  ℕ, zero, suc, ◌+◌, ◌≡◌, refl, Bool, true, false, Option, none, some, length, Text, is_empty,
  if-keeps, ltb, nat_eq, Option-cases, OnSome, read_word, index_of, stoul, take, drop, inl, inr,
  ◌⊎◌,
}
use loadbalancer.Http.RequestParser.{
  Line, next_line, ParseState, request_line, headers, body, complete, HttpRequestParser, Parsed,
  fail, with_version, with_target, with_method, parse_request_line, set_content_length,
  is_content_length, add_header, header_at, parse_header, parse_body, completed, at_body, continue,
  on_header, on_line, parse_lines, parse_from, parse, trim,
}

-- A step that succeeds leaves no error.
abbrev Clean : Bool × HttpRequestParser → Type 0
Clean (ok, p) = (ok ≡ false) ⊎ (p.has_error ≡ false)

abbrev pub NoError : Parsed → Type 0
NoError (ok, consumed, p) = (ok ≡ false) ⊎ (p.has_error ≡ false)

with_version-Clean :
    (o : Option (Text × Text)) (p : HttpRequestParser)
    → p.has_error ≡ false
    → Clean (with_version o p)
unfolding with_version fail
with_version-Clean none p h = inl refl
with_version-Clean (some w) p h = inr h

with_target-Clean :
    (m : Text) (o : Option (Text × Text)) (p : HttpRequestParser)
    → p.has_error ≡ false
    → Clean (with_target m o p)
unfolding with_target fail
with_target-Clean m none p h = inl refl
with_target-Clean m (some w) p h = with_version-Clean (read_word w.1) _ h

with_method-Clean :
    (o : Option (Text × Text)) (p : HttpRequestParser)
    → p.has_error ≡ false
    → Clean (with_method o p)
unfolding with_method fail
with_method-Clean none p h = inl refl
with_method-Clean (some w) p h = with_target-Clean w.0 (read_word w.1) p h

set_content_length-Clean :
    (o : Option ℕ) (p : HttpRequestParser) → p.has_error ≡ false → Clean (set_content_length o p)
unfolding set_content_length fail
set_content_length-Clean none p h = inl refl
set_content_length-Clean (some n) p h = inr h

add_header-Clean :
    (name value : Text) (p : HttpRequestParser)
    → p.has_error ≡ false
    → Clean (add_header name value p)
unfolding add_header
add_header-Clean name value p h =
    if-keeps Clean (is_content_length name) (λ e. set_content_length-Clean (stoul value) _ h)
      (λ e. inr h)

header_at-Clean :
    (line : Text) (o : Option ℕ) (p : HttpRequestParser)
    → p.has_error ≡ false
    → Clean (header_at line o p)
unfolding header_at fail
header_at-Clean line none p h = inl refl
header_at-Clean line (some i) p h = add_header-Clean (take i line) (trim (drop (i + 1) line)) p h

completed-NoError : (r : Parsed) → NoError r → NoError (completed r)
completed-NoError (false, n, p) h = h
completed-NoError (true, n, p) h = h

at_body-NoError :
    (n : ℕ) (rest : Text) (p : HttpRequestParser) → p.has_error ≡ false → NoError (at_body n rest p)
unfolding at_body parse_body
at_body-NoError n rest p h = completed-NoError (parse_body n rest p) (
    if-keeps NoError (nat_eq p.content_length 0) (λ e. inr h)
      (λ e. if-keeps NoError (ltb (length rest) p.content_length) (λ f. inl refl) (λ f. inr h)))

module _ (next : HttpRequestParser → Option Parsed)
    (ih : (p : HttpRequestParser) → p.has_error ≡ false → OnSome NoError (next p)) where
  continue-NoError :
      (n : ℕ) (r : Bool × HttpRequestParser) → Clean r → OnSome NoError (continue next n r)
  unfolding continue
  continue-NoError n (true, p) (inl e) = cc
  continue-NoError n (true, p) (inr e) = ih (record p { state = headers }) e
  continue-NoError n (false, p) h = inl refl

  on_header-NoError :
      (n : ℕ) (l : Line) (p : HttpRequestParser)
      → p.has_error ≡ false
      → OnSome NoError (on_header next n l p)
  unfolding on_header parse_header
  on_header-NoError n l p h =
      if-keeps (OnSome NoError) (is_empty l.text)
        (λ e. at_body-NoError n l.rest (record p { state = body }) h)
        (λ e.
          continue-NoError n (parse_header l.text p)
            (header_at-Clean l.text (index_of b':' l.text) p h))

  on_line-NoError :
      (s : ParseState) (n : ℕ) (l : Line) (p : HttpRequestParser)
      → p.has_error ≡ false
      → OnSome NoError (on_line next s n l p)
  unfolding on_line parse_request_line
  on_line-NoError request_line n l p h =
      continue-NoError n (parse_request_line l.text p) (with_method-Clean (read_word l.text) p h)
  on_line-NoError headers n l p h = on_header-NoError n l p h
  on_line-NoError body n l p h = at_body-NoError n l.rest p h
  on_line-NoError complete n l p h = inr h

parse_lines-NoError :
    (fuel n : ℕ) (rest : Text) (p : HttpRequestParser)
    → p.has_error ≡ false
    → OnSome NoError (parse_lines fuel n rest p)
unfolding parse_lines
parse_lines-NoError zero n rest p h = tt
parse_lines-NoError (suc fuel) n rest p h = elim (Option-cases (next_line rest)) [
  | inl e ↦ rw (e, parse_lines) (inl refl)
  | inr (l, e) ↦
      rw (e, parse_lines)
        (on_line-NoError (parse_lines fuel (n + l.size) l.rest)
          (λ q k. parse_lines-NoError fuel (n + l.size) l.rest q k) p.state (n + l.size) l p h)
]

parse_from-NoError :
    (s : ParseState) (buffer : Text) (p : HttpRequestParser)
    → p.has_error ≡ false
    → OnSome NoError (parse_from s buffer p)
unfolding parse_from
parse_from-NoError request_line buffer p h = parse_lines-NoError (length buffer + 1) 0 buffer p h
parse_from-NoError headers buffer p h = parse_lines-NoError (length buffer + 1) 0 buffer p h
parse_from-NoError body buffer p h = at_body-NoError 0 buffer p h
parse_from-NoError complete buffer p h = inr h

pub parse-NoError : (buffer : Text) (p : HttpRequestParser) → OnSome NoError (parse buffer p)
unfolding parse
parse-NoError buffer p =
    if-keeps (OnSome NoError) p.has_error (λ e. inl refl)
      (λ e. parse_from-NoError p.state buffer p e)
