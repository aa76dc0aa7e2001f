-- ===== src/Http/RequestParser/Total.antt =====
-- HttpRequestParser::parse of src/http/http_request.cpp on any buffer, from any state.
use loadbalancer.Base.{
  ℕ, zero, suc, ◌+◌, ◌≤◌, ◌<◌, ◌≡◌, ◌⊎◌, inl, inr, refl, Bool, true, false, Option, some, arith,
  length, Text, is_empty, if-keeps, Option-cases, OnSome-get,
}
use loadbalancer.Http.RequestParser.{
  Line, next_line, ParseState, request_line, headers, body, complete, HttpRequestParser, Parsed,
  parse_body, completed, at_body, continue, on_header, on_line, parse_lines, parse_from, parse,
  parse_request_line, parse_header,
}
use loadbalancer.Http.RequestParser.Lines.{Cuts, next_line-Cuts}

-- No more is consumed than there is, and the answer is `true` only for a complete request.
abbrev pub Sound : ℕ → Parsed → Type 0
Sound n (ok, consumed, p) = (consumed ≤ n) × ((ok ≡ false) ⊎ (p.state ≡ complete))

abbrev Gives : ℕ → Option Parsed → Type 0
Gives n o = (r : Parsed) × (o ≡ some r) × Sound n r

-- What was consumed is there.
abbrev Within : ℕ → Parsed → Type 0
Within n (ok, consumed, p) = consumed ≤ n

completed-Sound : (n : ℕ) (r : Parsed) → Within n r → Sound n (completed r)
completed-Sound n (false, consumed, p) h = (h, inl refl)
completed-Sound n (true, consumed, p) h = (h, inr refl)

at_body-Sound :
    (n consumed : ℕ) (rest : Text) (p : HttpRequestParser)
    → consumed + length rest ≤ n
    → Sound n (at_body consumed rest p)
unfolding at_body parse_body
at_body-Sound n consumed rest p h =
    completed-Sound n (parse_body consumed rest p) (ground (arith, h))

module _ (next : HttpRequestParser → Option Parsed) (n : ℕ)
    (ih : (p : HttpRequestParser) → Gives n (next p)) where
  continue-Gives :
      (consumed : ℕ) (r : Bool × HttpRequestParser)
      → consumed ≤ n
      → Gives n (continue next consumed r)
  unfolding continue
  continue-Gives consumed (true, p) h = ih (record p { state = headers })
  continue-Gives consumed (false, p) h = ((false, consumed, p), refl, (h, inl refl))

  on_header-Gives :
      (consumed : ℕ) (l : Line) (p : HttpRequestParser)
      → consumed + length l.rest ≤ n
      → Gives n (on_header next consumed l p)
  unfolding on_header
  on_header-Gives consumed l p h =
      let p' = record p { state = body } in
      if-keeps (Gives n) (is_empty l.text)
        (λ e. (at_body consumed l.rest p', refl, at_body-Sound n consumed l.rest p' h))
        (λ e. continue-Gives consumed (parse_header l.text p) (omega arith))

  on_line-Gives :
      (s : ParseState) (consumed : ℕ) (l : Line) (p : HttpRequestParser)
      → consumed + length l.rest ≤ n
      → p.state ≡ s
      → Gives n (on_line next s consumed l p)
  unfolding on_line
  on_line-Gives request_line consumed l p h k =
      continue-Gives consumed (parse_request_line l.text p) (omega arith)
  on_line-Gives headers consumed l p h k = on_header-Gives consumed l p h
  on_line-Gives body consumed l p h k =
      (at_body consumed l.rest p, refl, at_body-Sound n consumed l.rest p h)
  on_line-Gives complete consumed l p h k = ((true, consumed, p), refl, (omega arith, inr k))

parse_lines-Gives :
    (n fuel consumed : ℕ) (rest : Text) (p : HttpRequestParser)
    → length rest < fuel
    → consumed + length rest ≤ n
    → Gives n (parse_lines fuel consumed rest p)
unfolding parse_lines
parse_lines-Gives n zero consumed rest p h k = let x : ⊥ = omega arith in elim x [ ]
parse_lines-Gives n (suc fuel) consumed rest p h k = elim (Option-cases (next_line rest)) [
  | inl e ↦ rw (e, parse_lines) ((false, consumed, p), refl, (omega arith, inl refl))
  | inr (l, e) ↦
      let cut = OnSome-get (Cuts rest) (next_line rest) (next_line-Cuts rest) e in
      rw (e, parse_lines)
        (on_line-Gives (parse_lines fuel (consumed + l.size) l.rest) n
          (λ q.
            parse_lines-Gives n fuel (consumed + l.size) l.rest q (omega (arith, cut))
              (omega (arith, cut)))
          p.state (consumed + l.size) l p (omega (arith, cut)) refl)
]

parse_from-Gives :
    (s : ParseState) (buffer : Text) (p : HttpRequestParser)
    → p.state ≡ s
    → Gives (length buffer) (parse_from s buffer p)
unfolding parse_from
parse_from-Gives request_line buffer p e =
    parse_lines-Gives (length buffer) (length buffer + 1) 0 buffer p (omega arith) (omega arith)
parse_from-Gives headers buffer p e =
    parse_lines-Gives (length buffer) (length buffer + 1) 0 buffer p (omega arith) (omega arith)
parse_from-Gives body buffer p e =
    (at_body 0 buffer p, refl, at_body-Sound (length buffer) 0 buffer p (omega arith))
parse_from-Gives complete buffer p e = ((true, 0, p), refl, (omega arith, inr e))

-- `parse` returns on every buffer and from every state of the parser. It consumes no more bytes than
-- the buffer has, and it answers `false` or leaves the parser in the state COMPLETE.
pub parse_total :
    (buffer : Text) (p : HttpRequestParser)
    → (r : Parsed) × (parse buffer p ≡ some r) × Sound (length buffer) r
unfolding parse
parse_total buffer p =
    if-keeps (Gives (length buffer)) p.has_error
      (λ e. ((false, 0, p), refl, (omega arith, inl refl)))
      (λ e. parse_from-Gives p.state buffer p refl)
