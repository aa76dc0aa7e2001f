-- ===== src/Backend/Pool/Fairness.antt =====
-- The weighted round robin over a whole turn of `weighted_counter_`.
use native.Mathlib.Nat.{mod-eq_of_lt, zero-add, add-zero, suc-add, add-suc, add_comm, add-mod_right}
use native.Mathlib.Numerals.{add-one}
use native.Mathlib.Decide.{dec_lt}
use loadbalancer.Base.{
  ℕ, zero, suc, ◌+◌, ◌%◌, ◌≤◌, ◌<◌, ◌≡◌, refl, ◌∙◌, ap, Option, none, some, List, [], ◌∷◌, arith,
  lt→ltb, le→ltb_false, nat_eq, u32_mod, if◌then◌else◌, keep_if-is_empty, nat_eq-false,
}
use loadbalancer.Backend.Node.{Nodes}
use loadbalancer.Backend.Float.{Float}
use loadbalancer.Backend.Pool.{
  BackendPool, round_robin, usable, is_usable, total_weight, pick_weighted,
  select_weighted_round_robin, sticky_backend, choose, select_backend,
}

-- The sum of the weights, and of the weights of one backend.
abbrev pub weights : Nodes → List ℕ → ℕ
weights nodes [] = 0
weights nodes (r ∷ rs) = (nodes r).weight + weights nodes rs

abbrev pub weight_in : Nodes → ℕ → List ℕ → ℕ
weight_in nodes q [] = 0
weight_in nodes q (r ∷ rs) = (if nat_eq r q then (nodes r).weight else 0) + weight_in nodes q rs

-- How often `f` gives `q` on the `n` numbers from `s` on.
hits : ℕ → (ℕ → ℕ) → ℕ → ℕ → ℕ
hits q f s zero = 0
hits q f s (suc n) = (if nat_eq (f s) q then 1 else 0) + hits q f (suc s) n

hits-split :
    (q : ℕ) (f : ℕ → ℕ) (s m n : ℕ) → hits q f s (m + n) ≡ hits q f s m + hits q f (s + m) n
unfolding hits
hits-split q f s zero n = simp (zero-add, add-zero)
hits-split q f s (suc m) n =
    rw (suc-add, add-suc s m) (ground (arith, hits-split q f (suc s) m n, suc-add s m))

hits_ext :
    (q : ℕ) (f g : ℕ → ℕ) (s n : ℕ)
    → ((t : ℕ) → s ≤ t → t < s + n → f t ≡ g t)
    → hits q f s n ≡ hits q g s n
unfolding hits
hits_ext q f g s zero h = refl
hits_ext q f g s (suc n) h =
    rw (h s (omega arith) (omega arith))
      (ap (◌+◌ _) (hits_ext q f g (suc s) n (λ t a b. h t (omega arith) (omega arith))))

hits_const : (q r s n : ℕ) → hits q (λ t. r) s n ≡ (if nat_eq r q then n else 0)
unfolding hits
hits_const q r s zero = ground arith
hits_const q r s (suc n) = ground (arith, hits_const q r (suc s) n)

-- Over one period it does not matter where the count begins.
hits_periodic :
    (q : ℕ) (f : ℕ → ℕ) (w c : ℕ) → ((t : ℕ) → f (t + w) ≡ f t) → hits q f c w ≡ hits q f 0 w
hits_periodic q f w zero h = refl
hits_periodic q f w (suc c) h =
    let wrap : hits q f (c + w) 1 ≡ hits q f c 1 = unfold hits in rw (h c) in
    omega (
      arith,
      hits_periodic q f w c h,
      hits-split q f c 1 w,
      hits-split q f c w 1,
      ap (hits q f c) (add_comm 1 w),
      ap (λ (s : ℕ). hits q f s w) (add-one c),
      wrap,
    )

pick_weighted-head :
    (nodes : Nodes) (first t sum r : ℕ) (rs : List ℕ)
    → t < sum + (nodes r).weight
    → sum + (nodes r).weight < u32_mod
    → pick_weighted nodes first t sum (r ∷ rs) ≡ r
unfolding pick_weighted
pick_weighted-head nodes first t sum r rs h k = rw (mod-eq_of_lt k, lt→ltb t _ h)

pick_weighted-tail :
    (nodes : Nodes) (first t sum r : ℕ) (rs : List ℕ)
    → sum + (nodes r).weight ≤ t
    → sum + (nodes r).weight < u32_mod
    → pick_weighted nodes first t sum (r ∷ rs)
      ≡ pick_weighted nodes first t (sum + (nodes r).weight) rs
unfolding pick_weighted
pick_weighted-tail nodes first t sum r rs h k = rw (mod-eq_of_lt k, le→ltb_false t _ h)

-- The loop gives each backend as many of the targets as its weight.
hits-pick_weighted :
    (nodes : Nodes) (q first sum : ℕ) (rs : List ℕ)
    → sum + weights nodes rs < u32_mod
    → hits q (λ t. pick_weighted nodes first t sum rs) sum (weights nodes rs) ≡ weight_in nodes q rs
unfolding hits
hits-pick_weighted nodes q first sum [] h = refl
hits-pick_weighted nodes q first sum (r ∷ rs) h =
    let w = (nodes r).weight in
    let pick = λ (t : ℕ). pick_weighted nodes first t sum (r ∷ rs) in
    omega (
      arith,
      hits-split q pick sum w (weights nodes rs),
      hits_ext q pick (λ t. r) sum w
          (λ t a b. pick_weighted-head nodes first t sum r rs b (omega arith)),
      hits_const q r sum w,
      hits_ext q pick (λ t. pick_weighted nodes first t (sum + w) rs) (sum + w) (weights nodes rs)
          (λ t a b. pick_weighted-tail nodes first t sum r rs a (omega arith)),
      hits-pick_weighted nodes q first (sum + w) rs (omega arith),
    )

total_weight-eq :
    (nodes : Nodes) (acc : ℕ) (rs : List ℕ)
    → acc + weights nodes rs < u32_mod
    → total_weight nodes acc rs ≡ acc + weights nodes rs
unfolding total_weight
total_weight-eq nodes acc [] h = omega arith
total_weight-eq nodes acc (r ∷ rs) h =
    rw (mod-eq_of_lt {n = acc + (nodes r).weight} {m = u32_mod} (omega arith))
      (total_weight-eq nodes (acc + (nodes r).weight) rs (omega arith) ∙ omega arith)

-- The choices of `n` calls in a row, of clients with no session.
abbrev pub turns : Float → Nodes → ℕ → ℕ → BackendPool → List (Option ℕ)
turns fl nodes limit zero p = []
turns fl nodes limit (suc n) p =
    let (q, r) = select_backend fl nodes limit [] 0 p in r ∷ turns fl nodes limit n q

abbrev pub count : ℕ → List (Option ℕ) → ℕ
count q [] = 0
count q (none ∷ rs) = count q rs
count q (some r ∷ rs) = (if nat_eq r q then 1 else 0) + count q rs

select_backend_turn :
    (fl : Float) (nodes : Nodes) (limit first : ℕ) (rest : List ℕ) (p : BackendPool)
    → usable nodes limit p ≡ first ∷ rest
    → p.algorithm ≡ round_robin
    → 0 < weights nodes (first ∷ rest)
    → weights nodes (first ∷ rest) < u32_mod
    → p.weighted_counter + 1 < u32_mod
    → select_backend fl nodes limit [] 0 p ≡ (
      record p { weighted_counter = p.weighted_counter + 1 },
      some (
          pick_weighted nodes first
            (p.weighted_counter % weights nodes (first ∷ rest))
            0
            (first ∷ rest)),
    )
unfolding select_backend sticky_backend choose select_weighted_round_robin
select_backend_turn fl nodes limit first rest p e a pos below room = rw (
  keep_if-is_empty (is_usable nodes limit) p.backends e,
  e,
  a,
  choose,
  total_weight-eq nodes 0 (first ∷ rest) (omega arith),
  zero-add,
  nat_eq-false (weights nodes (first ∷ rest)) 0 (omega arith),
  mod-eq_of_lt room,
)

-- The choices are the loop's, for the counter's values one after the other.
count-turns :
    (fl : Float) (nodes : Nodes) (limit first : ℕ) (rest : List ℕ) (q n : ℕ) (p : BackendPool)
    → usable nodes limit p ≡ first ∷ rest
    → p.algorithm ≡ round_robin
    → 0 < weights nodes (first ∷ rest)
    → weights nodes (first ∷ rest) < u32_mod
    → p.weighted_counter + n < u32_mod
    → count q (turns fl nodes limit n p)
      ≡ hits q
          (λ c. pick_weighted nodes first (c % weights nodes (first ∷ rest)) 0 (first ∷ rest))
          p.weighted_counter
          n
unfolding hits
count-turns fl nodes limit first rest q zero p e a pos below room = refl
count-turns fl nodes limit first rest q (suc n) p e a pos below room =
    let pick =
      λ (c : ℕ). pick_weighted nodes first (c % weights nodes (first ∷ rest)) 0 (first ∷ rest) in
    let p' : BackendPool = record p { weighted_counter = p.weighted_counter + 1 } in
    rw (select_backend_turn fl nodes limit first rest p e a pos below (omega arith)) (
      ap (◌+◌ (if nat_eq (pick p.weighted_counter) q then 1 else 0)) (
        count-turns fl nodes limit first rest q n p' e a pos below (omega arith)
        ∙ ap (λ (c : ℕ). hits q pick c n) (add-one p.weighted_counter)))

weight_in-le : (nodes : Nodes) (q : ℕ) (rs : List ℕ) → weight_in nodes q rs ≤ weights nodes rs
weight_in-le nodes q [] = omega arith
weight_in-le nodes q (r ∷ rs) = ground (arith, weight_in-le nodes q rs)

-- One turn over a list of usable backends, the loop's sums within uint32_t.
hits_turn :
    (nodes : Nodes) (q first c : ℕ) (rs : List ℕ)
    → weights nodes rs < u32_mod
    → hits q (λ t. pick_weighted nodes first (t % weights nodes rs) 0 rs) c (weights nodes rs)
      ≡ weight_in nodes q rs
hits_turn nodes q first c rs below =
    let w = weights nodes rs in
    let pick = λ (t : ℕ). pick_weighted nodes first t 0 rs in
    hits_periodic q (λ t. pick (t % w)) w c (λ t. ap pick (add-mod_right t w))
    ∙ hits_ext q (λ t. pick (t % w)) pick 0 w (λ t a b. ap pick (mod-eq_of_lt (omega arith)))
    ∙ hits-pick_weighted nodes q first 0 rs (omega arith)

turns_fair_over :
    (fl : Float) (nodes : Nodes) (limit q : ℕ) (p : BackendPool) (rs : List ℕ)
    → usable nodes limit p ≡ rs
    → p.algorithm ≡ round_robin
    → p.weighted_counter + weights nodes rs < u32_mod
    → count q (turns fl nodes limit (weights nodes rs) p) ≡ weight_in nodes q rs
turns_fair_over fl nodes limit q p [] e a room = refl
turns_fair_over fl nodes limit q p (first ∷ rest) e a room =
    elim (dec_lt 0 (weights nodes (first ∷ rest))) [
      | yes pos ↦
          count-turns fl nodes limit first rest q (weights nodes (first ∷ rest)) p e a pos
            (omega arith) room
          ∙ hits_turn nodes q first p.weighted_counter (first ∷ rest) (omega arith)
      | no light ↦
          let empty : weights nodes (first ∷ rest) ≡ 0 = omega arith in
          ap (λ (n : ℕ). count q (turns fl nodes limit n p)) empty
          ∙ omega (arith, weight_in-le nodes q (first ∷ rest), empty)
    ]

-- Over as many calls as the weights of the usable backends add up to, each backend is chosen as
-- often as its weight says, wherever the counter stands, as long as no uint32_t wraps and nothing
-- changes in between.
pub turns_fair :
    (fl : Float) (nodes : Nodes) (limit q : ℕ) (p : BackendPool)
    → p.algorithm ≡ round_robin
    → let rs = usable nodes limit p in
      p.weighted_counter + weights nodes rs < u32_mod
      → count q (turns fl nodes limit (weights nodes rs) p) ≡ weight_in nodes q rs
turns_fair fl nodes limit q p a room =
    turns_fair_over fl nodes limit q p (usable nodes limit p) refl a room
