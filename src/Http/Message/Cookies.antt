-- ===== src/Http/Message/Cookies.antt =====
-- get_cookie of src/http/http_request.cpp.
use loadbalancer.Base.{
  if-keeps, bytes, ℕ, zero, suc, ◌+◌, ◌≤◌, ◌<◌, ◌≡◌, refl, Bool, false, Option, none, some, [], ◌∷◌,
  arith, length, Text, drop, take, is_empty, index_of, drop_while, length-drop,
}
use loadbalancer.Http.Message.{
  HttpRequest, is_separator, trim, same_letters, cookie_value, next_cookie, cookie_at, cookie_loop,
  get_cookie, get_header,
}

length-drop_while-le : (p : ℕ → Bool) (s : Text) → length (drop_while p s) ≤ length s
length-drop_while-le p [] = omega arith
length-drop_while-le p (c ∷ s) = ground (arith, length-drop_while-le p s)

-- The loop returns when the fuel exceeds what is left of the header.
Answers : Option Text → Type 0
Answers o = (v : Text) × (o ≡ some v)

is_empty-pos : (s : Text) → is_empty s ≡ false → 0 < length s
is_empty-pos [] h = ground (arith, h)
is_empty-pos (c ∷ s) h = omega arith

module _ (next : Text → Option Text) (fuel : ℕ)
    (ih : (t : Text) → length t < fuel → Answers (next t)) where
  next_cookie_total :
      (s : Text) (o : Option ℕ) (n : ℕ)
      → length s ≤ n
      → 0 < n
      → n < suc fuel
      → Answers (next_cookie next s o)
  unfolding next_cookie Answers
  next_cookie_total s none n h k l = ([], refl)
  next_cookie_total s (some i) n h k l = ih (drop (i + 1) s) (omega (arith, length-drop (i + 1) s))

  cookie_at_total :
      (name s : Text) (o : Option ℕ)
      → 0 < length s
      → length s < suc fuel
      → Answers (cookie_at next name s o)
  unfolding cookie_at Answers
  cookie_at_total name s none h k = ([], refl)
  cookie_at_total name s (some i) h k =
      if-keeps Answers (same_letters (trim (take i s)) name)
        (λ e. (cookie_value (drop (i + 1) s), refl))
        (λ e.
          next_cookie_total (drop i s) (index_of b';' (drop i s)) (length s)
            (omega (arith, length-drop i s)) h k)

cookie_loop_total : (fuel : ℕ) (name s : Text) → length s < fuel → Answers (cookie_loop fuel name s)
unfolding cookie_loop Answers
cookie_loop_total zero name s h = let x : ⊥ = omega arith in elim x [ ]
cookie_loop_total (suc fuel) name s h =
    let s' = drop_while is_separator s in
    if-keeps Answers (is_empty s') (λ e. ([], refl))
      (λ e.
        cookie_at_total (cookie_loop fuel name) fuel (λ t k. cookie_loop_total fuel name t k) name
          s' (index_of b'=' s') (is_empty-pos s' e)
          (omega (arith, length-drop_while-le is_separator s)))

pub get_cookie_total : (name : Text) (r : HttpRequest) → (v : Text) × (get_cookie name r ≡ some v)
unfolding get_cookie Answers
get_cookie_total name r =
    let header = get_header (bytes "Cookie") r in
    if-keeps Answers (is_empty header) (λ e. ([], refl))
      (λ e. cookie_loop_total (length header + 1) name header (omega arith))
