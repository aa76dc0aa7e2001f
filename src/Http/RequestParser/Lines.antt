-- ===== src/Http/RequestParser/Lines.antt =====
-- The lines that HttpRequestParser::parse (src/http/http_request.cpp) cuts from its buffer.
use loadbalancer.Base.{
  ℕ, ◌+◌, ◌<◌, ◌≡◌, refl, ap, Option, none, some, [], ◌∷◌, ◌++◌, arith, length, Text, Lacks, nat_eq,
  nat_eq-false, if-keeps, OnSome, crlf,
}
use loadbalancer.Http.RequestParser.{Line, longer, after_cr, next_line}

-- A text with no end of line in it.
abbrev pub OneLine : Text → Type 0
OneLine s = Lacks 13 s × Lacks 10 s

pub next_line-append :
    (s t : Text)
    → OneLine s
    → next_line (s ++ (crlf ++ t)) ≡ some (record { text = s; size = length s + 2; rest = t })
unfolding next_line
next_line-append [] t h = refl
next_line-append (c ∷ s) t h =
    rw (nat_eq-false c 13 h.0.0, nat_eq-false c 10 h.1.0, next_line-append s t (h.0.1, h.1.1))
      (ap (λ n. some (record { text = c ∷ s; size = n; rest = t })) (omega arith))

-- A line is not longer than its text and the rest say, and it takes at least a byte.
abbrev pub Cuts : Text → Line → Type 0
Cuts s l = (l.size + length l.rest ≡ length s) × (0 < l.size)

longer-Cuts :
    (c : ℕ) (s : Text) (o : Option Line) → OnSome (Cuts s) o → OnSome (Cuts (c ∷ s)) (longer c o)
longer-Cuts c s none h = tt
longer-Cuts c s (some l) h = (omega (arith, h.0), omega arith)

after_cr-Cuts : (c : ℕ) (s : Text) → OnSome (Cuts (c ∷ s)) (after_cr s)
after_cr-Cuts c [] = tt
after_cr-Cuts c (d ∷ s) =
    if-keeps (OnSome (Cuts (c ∷ d ∷ s))) (nat_eq d 10) (λ e. (omega arith, omega arith)) (λ e. tt)

pub next_line-Cuts : (s : Text) → OnSome (Cuts s) (next_line s)
unfolding next_line
next_line-Cuts [] = tt
next_line-Cuts (c ∷ s) =
    if-keeps (OnSome (Cuts (c ∷ s))) (nat_eq c 13) (λ e. after_cr-Cuts c s)
      (λ e.
        if-keeps (OnSome (Cuts (c ∷ s))) (nat_eq c 10) (λ f. (omega arith, omega arith))
          (λ f. longer-Cuts c s (next_line s) (next_line-Cuts s)))
