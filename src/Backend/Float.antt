-- ===== src/Backend/Float.antt =====
-- The `double` arithmetic of src/core/backend_pool.cpp, which the language provides: a parameter.
use loadbalancer.Base.{ℕ, ◌*◌, ◌<◌, ◌≡◌, ◌↔◌, Bool, true}

-- What IEEE 754 gives. `lt-div`: a quotient of numbers below 2 ^ 26 is off by less than half the gap
-- between two such quotients, so that rounding keeps their order.
pub record Float : Type 1 where
  pub Double : Type 0
  pub of_u32 : ℕ → Double
  pub div : Double → Double → Double
  pub lt : Double → Double → Bool
  pub lt-div :
      (a b c d : ℕ)
      → a < 67108864
      → b < 67108864
      → c < 67108864
      → d < 67108864
      → 0 < b
      → 0 < d
      → (lt (div (of_u32 a) (of_u32 b)) (div (of_u32 c) (of_u32 d)) ≡ true) ↔ (a * d < c * b)
