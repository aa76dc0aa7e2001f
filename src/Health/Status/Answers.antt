-- ===== src/Health/Status/Answers.antt =====
-- check_http_health of src/health/health_checker.cpp on a well-formed status line.
use native.Mathlib.Nat.{zero-add}
use native.Mathlib.Numerals.{add-one}
use loadbalancer.Base.{
  ℕ, suc, ◌+◌, ◌-◌, ◌≡◌, refl, ◌∙◌, true, false, some, [], ◌∷◌, ◌++◌, arith, Text, bytes, nat_eq,
  length, drop, index_of, index_of-append, is_digit, Lacks,
}
use loadbalancer.Health.Status.{
  status_end, read_digits, judge, judge_at, first_found, after_space, after_http, read_status,
}

digits_lem :
    (a b c : ℕ)
    → is_digit a ≡ true
    → is_digit b ≡ true
    → is_digit c ≡ true
    → judge (a ∷ b ∷ c ∷ []) ≡ nat_eq a b'2'
unfolding judge read_digits
digits_lem a b c p q r = ground arith

drop-suc : (c : ℕ) (s t : Text) → drop (suc (length s)) (s ++ c ∷ t) ≡ t
drop-suc c [] t = refl
drop-suc c (x ∷ s) t = drop-suc c s t

drop_behind : (c : ℕ) (s t : Text) → drop (0 + length s + 1) (s ++ c ∷ t) ≡ t
drop_behind c s t = rw (zero-add, add-one) (drop-suc c s t)

digit-ne-blank : (a : ℕ) → is_digit a ≡ true → nat_eq a b' ' ≡ false
digit-ne-blank a h = ground arith

-- The three digits end at the blank behind them.
status_end_lem :
    (a b c start : ℕ) (rest s : Text)
    → is_digit a ≡ true
    → is_digit b ≡ true
    → is_digit c ≡ true
    → drop start s ≡ a ∷ b ∷ c ∷ b' ' ∷ rest
    → status_end start s ≡ some (start + 3)
unfolding status_end first_found
status_end_lem a b c start rest s p q r e =
    rw (e, digit-ne-blank a p, digit-ne-blank b q, digit-ne-blank c r)

judge_at_lem :
    (a b c start : ℕ) (rest s : Text)
    → drop start s ≡ a ∷ b ∷ c ∷ b' ' ∷ rest
    → judge_at s start (some (start + 3)) ≡ judge (a ∷ b ∷ c ∷ [])
unfolding judge_at
judge_at_lem a b c start rest s e = let three : start + 3 - start ≡ 3 = omega arith in rw (three, e)

-- An answer that begins with a version, a blank, a status of three digits and a blank counts as
-- healthy exactly when the first digit is 2, so for 200 to 299, whatever follows that second blank;
-- the version has no blank.
pub read_status_lem :
    (version rest : Text) (a b c : ℕ)
    → Lacks b' ' version
    → is_digit a ≡ true
    → is_digit b ≡ true
    → is_digit c ≡ true
    → read_status (bytes "HTTP/" ++ (version ++ (b' ' ∷ a ∷ b ∷ c ∷ b' ' ∷ rest))) ≡ nat_eq a b'2'
unfolding read_status after_http after_space
read_status_lem version rest a b c h p q r =
    let head = bytes "HTTP/" ++ version in
    let s = head ++ (b' ' ∷ a ∷ b ∷ c ∷ b' ' ∷ rest) in
    let start = 0 + length head + 1 in
    let behind = drop_behind b' ' head (a ∷ b ∷ c ∷ b' ' ∷ rest) in
    let found : index_of b' ' s ≡ some (length head) =
      index_of-append b' ' head (a ∷ b ∷ c ∷ b' ' ∷ rest)
        (omega arith, (omega arith, (omega arith, (omega arith, (omega arith, h))))) in
    rw (found, after_space, status_end_lem a b c start rest s p q r behind)
      (judge_at_lem a b c start rest s behind ∙ digits_lem a b c p q r)
