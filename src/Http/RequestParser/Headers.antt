-- ===== src/Http/RequestParser/Headers.antt =====
-- The header lines of a serialized request, read back by HttpRequestParser (src/http/http_request.cpp).
use mathlib.Core.List.{append_assoc, append-nil}
use loadbalancer.Base.{
  ◌≢◌, All-append, ℕ, zero, suc, ◌+◌, ◌<◌, ◌≡◌, ◌⊎◌, inl, inr, refl, ap, ◌∙◌, true, false, none,
  some, [], ◌∷◌, ◌++◌, arith, length, length-append, Text, Lacks, All, Map, find, assign, text_keys,
  ◌==◌, index_of-append, bytes, crlf, drop, take-append, is_empty, stoul, Bool-cases,
}
use loadbalancer.Http.Message.{HttpRequest}
use loadbalancer.Http.RequestParser.{
  headers, body, HttpRequestParser, trim, is_content_length, set_content_length, add_header,
  header_at, parse_header, continue, on_header, on_line, parse_lines, at_body,
}
use loadbalancer.Http.RequestParser.Lines.{OneLine}
use loadbalancer.Http.RequestParser.Split.{parse_lines-line}
use loadbalancer.Http.RequestParser.Serialized.{print_headers}

-- A name without a colon and a value without blanks around it, each on one line.
abbrev pub IsHeader : Text × Text → Type 0
IsHeader (name, value) = OneLine name × Lacks b':' name × OneLine value × (trim value ≡ value)

-- No name comes twice; `before` holds the headers that came first.
abbrev pub Fresh : Map Text Text → Map Text Text → Type 0
Fresh before [] = Unit
Fresh before ((name, value) ∷ hs) =
    (find name before ≡ none) × Fresh (before ++ (name, value) ∷ []) hs

-- Every header of the body's length is a number, and the last one, or else the first argument, is `m`.
abbrev pub Declares : ℕ → Map Text Text → ℕ → Type 0
Declares n [] m = n ≡ m
Declares n ((name, value) ∷ hs) m =
    ((is_content_length name ≡ false) × Declares n hs m)
    ⊎ ((k : ℕ) × (is_content_length name ≡ true) × (stoul value ≡ some k) × Declares k hs m)

assign-fresh :
    (name value : Text) (m : Map Text Text)
    → find name m ≡ none
    → assign name value m ≡ m ++ (name, value) ∷ []
unfolding assign find
assign-fresh name value [] h = refl
assign-fresh name value ((k, v) ∷ m) h = elim (Bool-cases (k == name)) [
  | inl e ↦ let h' : some v ≡ none = rw e at h in cc
  | inr e ↦ rw e (ap (◌∷◌ (k, v)) (assign-fresh name value m (rw e at h)))
]

pub drop-append-suc : (s t : Text) (c : ℕ) → drop (length s + 1) (s ++ c ∷ t) ≡ t
drop-append-suc [] t c = refl
drop-append-suc (d ∷ s) t c =
    let e : suc (length s) + 1 ≡ suc (length s + 1) = omega arith in
    ap (λ n. drop n (d ∷ s ++ c ∷ t)) e ∙ drop-append-suc s t c

header_read :
    (name value : Text) (p : HttpRequestParser)
    → IsHeader (name, value)
    → parse_header (name ++ (bytes ": " ++ value)) p ≡ add_header name value p
unfolding parse_header header_at
header_read name value p h = rw (index_of-append b':' name (b' ' ∷ value) h.1) (
    ap (λ n. add_header n (trim (drop (length name + 1) (name ++ (bytes ": " ++ value)))) p)
      (take-append name (bytes ": " ++ value))
    ∙ ap (λ v. add_header name (trim v) p) (drop-append-suc name (b' ' ∷ value) b':')
    ∙ ap (λ v. add_header name v p) h.3)

-- A parser that has read the headers `before`.
abbrev pub reading : HttpRequest → Map Text Text → ℕ → HttpRequestParser
reading r before n = record {
  request = record r { headers = before };
  state = headers;
  has_error = false;
  error_message = [];
  content_length = n;
}

line_read :
    (r : HttpRequest) (before hs : Map Text Text) (name value : Text) (n m : ℕ)
    → find name before ≡ none
    → Declares n ((name, value) ∷ hs) m
    → (k : ℕ) × (add_header name value (reading r before n)
        ≡ (true, reading r (before ++ (name, value) ∷ []) k))
      × Declares k hs m
unfolding add_header set_content_length
line_read r before hs name value n m h (inl (e, d)) =
    (n, rw e (ap (λ b. (true, reading r b n)) (assign-fresh name value before h)), d)
line_read r before hs name value n m h (inr (k, e, f, d)) =
    (k, rw e (rw f (ap (λ b. (true, reading r b k)) (assign-fresh name value before h))), d)

abbrev header_line : Text → Text → Text
header_line name value = name ++ (bytes ": " ++ value)

header_line-IsLine : (name value : Text) → IsHeader (name, value) → OneLine (header_line name value)
header_line-IsLine name value (h, k, g, e) = (
  All-append (λ x. x ≢ 13) name (bytes ": " ++ value) h.0
      ((λ q. omega arith), ((λ q. omega arith), g.0)),
  All-append (λ x. x ≢ 10) name (bytes ": " ++ value) h.1
      ((λ q. omega arith), ((λ q. omega arith), g.1)),
)

header_line-is_empty : (name value : Text) → is_empty (header_line name value) ≡ false
header_line-is_empty [] value = refl
header_line-is_empty (c ∷ name) value = refl

print_headers-cons :
    (name value : Text) (hs : Map Text Text) (t : Text)
    → print_headers ((name, value) ∷ hs) ++ t
      ≡ header_line name value ++ (crlf ++ (print_headers hs ++ t))
unfolding print_headers
print_headers-cons name value hs t = simp append_assoc

pub length-print_headers :
    (name value : Text) (hs : Map Text Text)
    → length (print_headers ((name, value) ∷ hs))
      ≡ length (header_line name value) + 2 + length (print_headers hs)
unfolding print_headers
length-print_headers name value hs =
    ap length {y = header_line name value ++ (crlf ++ print_headers hs)} (simp append_assoc)
    ∙ length-append (header_line name value) (crlf ++ print_headers hs)
    ∙ omega arith

pub headers_read :
    (r : HttpRequest) (hs before : Map Text Text) (n m fuel consumed : ℕ) (tail : Text)
    → All IsHeader hs
    → Fresh before hs
    → Declares n hs m
    → length hs < fuel
    → parse_lines fuel consumed (print_headers hs ++ (crlf ++ tail)) (reading r before n)
      ≡ some (
          at_body
            (consumed + (length (print_headers hs) + 2))
            tail
            (record (reading r (before ++ hs) m) { state = body }))
unfolding print_headers on_line on_header continue
headers_read r hs before n m zero consumed tail h f d l = let x : ⊥ = omega arith in elim x [ ]
headers_read r [] before n m (suc fuel) consumed tail h f d l =
    parse_lines-line fuel consumed [] tail (reading r before n) (tt, tt)
    ∙ rw (append-nil before) (
        ap (λ k. some (at_body (consumed + 2) tail (record (reading r before k) { state = body })))
          d)
headers_read r ((name, value) ∷ hs) before n m (suc fuel) consumed tail h f d l =
    let (k, e, d') = line_read r before hs name value n m f.0 d in
    let line = header_line name value in
    let rest = print_headers hs ++ (crlf ++ tail) in
    let here = before ++ (name, value) ∷ [] in
    let at = consumed + (length line + 2) in
    let e2 : at + (length (print_headers hs) + 2)
        ≡ consumed + (length (print_headers ((name, value) ∷ hs)) + 2) =
      omega (arith, length-print_headers name value hs) in
    ap (λ s. parse_lines (suc fuel) consumed s (reading r before n))
      (print_headers-cons name value hs (crlf ++ tail))
    ∙ parse_lines-line fuel consumed line rest (reading r before n)
        (header_line-IsLine name value h.0)
    ∙ rw (header_line-is_empty name value) (
        rw (header_read name value (reading r before n) h.0) (
          rw e (
            headers_read r hs here k m fuel at tail h.1 f.1 d' (omega arith)
            ∙ ap
                (λ b. some (
                  at_body (at + (length (print_headers hs) + 2)) tail
                    (record (reading r b m) { state = body })))
                (append_assoc before ((name, value) ∷ []) hs)
            ∙ ap
                (λ c. some (
                  at_body c tail
                    (record (reading r (before ++ (name, value) ∷ hs) m) { state = body })))
                e2)))
