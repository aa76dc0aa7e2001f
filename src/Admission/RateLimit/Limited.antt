-- ===== src/Admission/RateLimit/Limited.antt =====
-- The times that check_rate_limit of src/core/load_balancer.cpp keeps for one address.
use loadbalancer.Base.{
  ℕ, ◌+◌, ◌≤◌, ◌≡◌, refl, ap, ◌∙◌, Bool, List, [], ◌∷◌, ◌++◌, arith, length, leb, text_keys,
  if◌then◌else◌, if-keeps,
}
use loadbalancer.Admission.Config.{Config}
use loadbalancer.Admission.RateLimit.{recent, window_of, check_times}

module _ (window : ℕ) where
  pub recent-recent :
      (t u : ℕ) (xs : List ℕ) → t ≤ u → recent window u (recent window t xs) ≡ recent window u xs
  unfolding recent
  recent-recent t u [] h = refl
  recent-recent t u (x ∷ xs) h = ground (arith, recent-recent t u xs h)

  pub length-recent_fewer :
      (t u : ℕ) (xs : List ℕ) → t ≤ u → length (recent window u xs) ≤ length (recent window t xs)
  unfolding recent
  length-recent_fewer t u [] h = omega arith
  length-recent_fewer t u (x ∷ xs) h = ground (arith, length-recent_fewer t u xs h)

  length-recent-append :
      (u now : ℕ) (xs : List ℕ)
      → length (recent window u (xs ++ now ∷ [])) ≡ length (recent window u (now ∷ xs))
  unfolding recent
  length-recent-append u now [] = refl
  length-recent-append u now (x ∷ xs) = ground (arith, length-recent-append u now xs)

  length-recent-cons :
      (u now : ℕ) (xs ys : List ℕ)
      → length (recent window u xs) ≡ length (recent window u ys)
      → length (recent window u (now ∷ xs)) ≡ length (recent window u (now ∷ ys))
  unfolding recent
  length-recent-cons u now xs ys h = ground (arith, h)

  length-recent_now :
      (now : ℕ) (xs : List ℕ)
      → length (recent window now (now ∷ xs)) ≡ length (recent window now xs) + 1
  unfolding recent
  length-recent_now now xs = ground arith

-- The times kept answer for those admitted in every window from `now` on, and the limit holds.
pub record IsLimited (config : Config) (now : ℕ) (times admitted : List ℕ) : Type 0 where
  pub agree :
      (u : ℕ)
      → now ≤ u
      → length (recent (window_of config) u times) ≡ length (recent (window_of config) u admitted)
  pub within : length (recent (window_of config) now admitted) ≤ config.rate_limit_max_connections

-- What is admitted after a check of this address.
abbrev pub grown : ℕ → Bool → List ℕ → List ℕ
grown now ok admitted = if ok then now ∷ admitted else admitted

module _ (config : Config) where
  pub later-IsLimited :
      (t u : ℕ) (times admitted : List ℕ)
      → t ≤ u
      → IsLimited config t times admitted
      → IsLimited config u (recent (window_of config) u times) admitted
  later-IsLimited t u times admitted k h = record {
    agree =
        λ v e. ap length (recent-recent (window_of config) u v times e) ∙ h.agree v (omega arith);
    within = omega (arith, h.within, length-recent_fewer (window_of config) t u admitted k);
  }

  pub same-IsLimited :
      (t u : ℕ) (times admitted : List ℕ)
      → t ≤ u
      → IsLimited config t times admitted
      → IsLimited config u times admitted
  same-IsLimited t u times admitted k h = record {
    agree = λ v e. h.agree v (omega arith);
    within = omega (arith, h.within, length-recent_fewer (window_of config) t u admitted k);
  }

  pub check_times-IsLimited :
      (t now : ℕ) (times admitted : List ℕ)
      → t ≤ now
      → IsLimited config t times admitted
      → let r = check_times now config times in IsLimited config now r.0 (grown now r.1 admitted)
  unfolding check_times
  check_times-IsLimited t now times admitted k h =
      let w = window_of config in
      let kept = recent w now times in
      let same : length kept ≡ length (recent w now admitted) = h.agree now k in
      if-keeps (λ (r : List ℕ × Bool). IsLimited config now r.0 (grown now r.1 admitted))
        (leb config.rate_limit_max_connections (length kept))
        (λ e. later-IsLimited t now times admitted k h)
        (λ e. record {
          agree = λ u g.
              length-recent-append w u now kept
              ∙ length-recent-cons w u now kept admitted
                  (ap length (recent-recent w now u times g) ∙ h.agree u (omega arith));
          within = ground (arith, same, e, length-recent_now w now admitted);
        })
