-- ===== src/Backend/Exact.antt =====
-- The fractions of src/core/backend_pool.cpp without rounding: an instance of their parameter.
use loadbalancer.Base.{ℕ, ◌*◌, ◌<◌, ◌≡◌, ◌↔◌, Bool, true, ltb, ltb→lt, lt→ltb}
use loadbalancer.Backend.Float.{Float}

-- Quotients kept as pairs and compared by cross multiplication.
unfoldable pub cross : ℕ × ℕ → ℕ × ℕ → Bool
cross (a, b) (c, d) = ltb (a * d) (c * b)

pub cross_law : (a b c d : ℕ) → (cross (a, b) (c, d) ≡ true) ↔ (a * d < c * b)
unfolding cross
cross_law a b c d = (ltb→lt _ _, lt→ltb _ _)

abbrev pub exact : Float
unfolding cross
exact = record {
  Double = ℕ × ℕ;
  of_u32 = λ n. (n, 1);
  div = λ x y. (x.0, y.0);
  lt = cross;
  lt-div = λ a b c d _ _ _ _ _ _. cross_law a b c d;
}
