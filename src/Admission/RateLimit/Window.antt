-- ===== src/Admission/RateLimit/Window.antt =====
-- Sequences of checks and clean-ups of the rate limit of src/core/load_balancer.cpp.
use loadbalancer.Base.{
  ℕ, ◌≤◌, ◌≡◌, refl, sym, ap, ◌∙◌, inl, inr, Bool, false, not, ◌&&◌, none, some, List, [], ◌∷◌,
  arith, length, is_empty, is_empty_iff, Text, text_eq, text_eq_iff, text_keys, find, assign,
  find-assign, find-assign_self, if-keeps, Bool-cases,
}
use loadbalancer.Admission.Config.{Config}
use loadbalancer.Admission.RateLimit.{
  Tracker, recent, window_of, times_found, times_of, check_times, is_exempt, check_rate_limit,
  cleanup_loop, cleanup_rate_limit_entries,
}
use loadbalancer.Admission.RateLimit.Limited.{
  IsLimited, grown, later-IsLimited, same-IsLimited, check_times-IsLimited,
}

-- Each address once.
Unique : Tracker → Type 0
Unique [] = Unit
Unique ((ip, times) ∷ m) = (find ip m ≡ none) × Unique m

assign-Unique : (ip : Text) (times : List ℕ) (m : Tracker) → Unique m → Unique (assign ip times m)
unfolding Unique find assign
assign-Unique ip times [] h = (refl, tt)
assign-Unique ip times ((j, v) ∷ m) h = elim (Bool-cases (text_eq j ip)) [
  | inl e ↦ rw e (rw⁻¹ ((text_eq_iff j ip).0 e) h.0, h.1)
  | inr e ↦ rw e (
    find-assign ip j times m ∙ ground (arith, e, h.0, text_eq_iff ip j, text_eq_iff j ip),
    assign-Unique ip times m h.1,
  )
]

cleanup_loop-none :
    (window now : ℕ) (ip : Text) (m : Tracker)
    → find ip m ≡ none
    → find ip (cleanup_loop window now m) ≡ none
unfolding cleanup_loop find
cleanup_loop-none window now ip [] h = refl
cleanup_loop-none window now ip ((j, v) ∷ m) h = ground (arith, cleanup_loop-none window now ip m)

cleanup_loop-Unique : (window now : ℕ) (m : Tracker) → Unique m → Unique (cleanup_loop window now m)
unfolding cleanup_loop Unique
cleanup_loop-Unique window now [] h = h
cleanup_loop-Unique window now ((j, v) ∷ m) h =
    if-keeps Unique (is_empty (recent window now v)) (λ e. cleanup_loop-Unique window now m h.1)
      (λ e. (cleanup_loop-none window now j m h.0, cleanup_loop-Unique window now m h.1))

-- An address that goes had no time left.
times_of-cleanup_loop :
    (window now : ℕ) (ip : Text) (m : Tracker)
    → Unique m
    → times_of ip (cleanup_loop window now m) ≡ recent window now (times_of ip m)
unfolding cleanup_loop Unique times_of times_found find recent
times_of-cleanup_loop window now ip [] h = refl
times_of-cleanup_loop window now ip ((j, v) ∷ m) h =
    let kept = recent window now v in
    let rest = cleanup_loop window now m in
    let later = times_of-cleanup_loop window now ip m h.1 in
    elim (Bool-cases (text_eq j ip)) [
      | inl e ↦ rw e (
          if-keeps (λ (x : Tracker). times_of ip x ≡ kept) (is_empty kept)
            (λ g.
              ap times_found (cleanup_loop-none window now ip m (rw⁻¹ ((text_eq_iff j ip).0 e) h.0))
              ∙ sym ((is_empty_iff kept).0 g))
            (λ g. rw e refl))
      | inr e ↦ rw e (
          if-keeps (λ (x : Tracker). times_of ip x ≡ recent window now (times_of ip m))
            (is_empty kept) (λ g. later) (λ g. rw e later))
    ]

times_of-assign_self : (ip : Text) (v : List ℕ) (m : Tracker) → times_of ip (assign ip v m) ≡ v
unfolding times_of times_found
times_of-assign_self ip v m = ap times_found (find-assign_self ip v m)

times_of-assign_other :
    (j ip : Text) (v : List ℕ) (m : Tracker)
    → text_eq j ip ≡ false
    → times_of ip (assign j v m) ≡ times_of ip m
unfolding times_of times_found
times_of-assign_other j ip v m e =
    let same : find ip (assign j v m) ≡ find ip m = find-assign j ip v m ∙ rw e refl in
    ap times_found same

-- The admissions of one address, newest first, among checks of any addresses and clean-ups, in the
-- order of the clock.
pub data Run (config : Config) (ip : Text) : ℕ → Tracker → List ℕ → Type 0 where
  start : Run config ip 0 [] []
  checks :
      (t now : ℕ) (j : Text) (m : Tracker) (admitted : List ℕ)
      → Run config ip t m admitted
      → t ≤ now
      → Run config ip now
          (check_rate_limit now j (some config) m).0
          (grown now (text_eq j ip && (check_rate_limit now j (some config) m).1) admitted)
  cleans :
      (t now : ℕ) (m : Tracker) (admitted : List ℕ)
      → Run config ip t m admitted
      → t ≤ now
      → Run config ip now (cleanup_rate_limit_entries now (some config) m) admitted

record IsSound (config : Config) (ip : Text) (now : ℕ) (m : Tracker) (admitted : List ℕ)
    : Type 0 where
  unique : Unique m
  limited : IsLimited config now (times_of ip m) admitted

module _ (config : Config) (ip : Text) (counted : is_exempt ip config ≡ false) where
  checks-IsSound :
      (t now : ℕ) (j : Text) (m : Tracker) (admitted : List ℕ)
      → t ≤ now
      → IsSound config ip t m admitted
      → let r = check_rate_limit now j (some config) m in
        IsSound config ip now r.0 (grown now (text_eq j ip && r.1) admitted)
  unfolding check_rate_limit
  checks-IsSound t now j m admitted k h = elim (Bool-cases (text_eq j ip)) [
    | inl e ↦ rw ((text_eq_iff j ip).0 e) (
        rw counted (
          rw ((text_eq_iff ip ip).1 refl) (record {
            unique = assign-Unique ip _ m h.unique;
            limited =
                rw (times_of-assign_self ip (check_times now config (times_of ip m)).0 m)
                  (check_times-IsLimited config t now (times_of ip m) admitted k h.limited);
          })))
    | inr e ↦ rw e (
        if-keeps (λ (r : Tracker × Bool). IsSound config ip now r.0 admitted) (is_exempt j config)
          (λ g. record {
            unique = h.unique;
            limited = same-IsLimited config t now _ admitted k h.limited;
          })
          (λ g. record {
            unique = assign-Unique j _ m h.unique;
            limited =
                rw (times_of-assign_other j ip (check_times now config (times_of j m)).0 m e)
                  (same-IsLimited config t now (times_of ip m) admitted k h.limited);
          }))
  ]

  cleans-IsSound :
      (t now : ℕ) (m : Tracker) (admitted : List ℕ)
      → t ≤ now
      → IsSound config ip t m admitted
      → IsSound config ip now (cleanup_rate_limit_entries now (some config) m) admitted
  unfolding cleanup_rate_limit_entries
  cleans-IsSound t now m admitted k h =
      if-keeps (λ (x : Tracker). IsSound config ip now x admitted) (not config.rate_limit_enabled)
        (λ e. record {
          unique = h.unique;
          limited = same-IsLimited config t now (times_of ip m) admitted k h.limited;
        })
        (λ e. record {
          unique = cleanup_loop-Unique (window_of config) now m h.unique;
          limited =
              rw (times_of-cleanup_loop (window_of config) now ip m h.unique)
                (later-IsLimited config t now (times_of ip m) admitted k h.limited);
        })

  Run-IsSound :
      (now : ℕ) (m : Tracker) (admitted : List ℕ)
      → Run config ip now m admitted
      → IsSound config ip now m admitted
  unfolding Unique times_of times_found find recent
  Run-IsSound now m admitted start = record {
    unique = tt;
    limited = record { agree = λ u k. refl; within = omega arith };
  }
  Run-IsSound now m admitted (checks t n j m' a r k) =
      checks-IsSound t now j m' a k (Run-IsSound t m' a r)
  Run-IsSound now m admitted (cleans t n m' a r k) =
      cleans-IsSound t now m' a k (Run-IsSound t m' a r)

-- An address that the limit counts is admitted at most `rate_limit_max_connections` times in any
-- window of `rate_limit_window_seconds` that ends at a check or a clean-up, whatever other addresses
-- are checked between and whenever the tracker is cleaned up.
pub Run-within :
    (config : Config) (ip : Text) (now : ℕ) (m : Tracker) (admitted : List ℕ)
    → is_exempt ip config ≡ false
    → Run config ip now m admitted
    → length (recent (window_of config) now admitted) ≤ config.rate_limit_max_connections
Run-within config ip now m admitted counted r =
    (Run-IsSound config ip counted now m admitted r).limited.within
