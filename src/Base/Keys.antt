-- ===== src/Base/Keys.antt =====
-- Keys with a decidable equality: descriptors and texts.
use Prim.Native.Nat.{ℕ}
use mathlib.Core.Path.{◌≡◌, refl, ap₂}
use mathlib.Core.Logic.{◌↔◌}
use mathlib.Core.Bool.{Bool, true, false, ◌&&◌}
use mathlib.Core.List.{List, [], ◌∷◌}
use loadbalancer.Base.Compare.{nat_eq, nat_eq_iff, and_true}

-- What a map asks of its keys.
pub record Keyed (K : Type 0) : Type 0 where
  pub same_key : K → K → Bool
  pub same_key_iff : (j k : K) → (same_key j k ≡ true) ↔ (j ≡ k)

infix 50 ◌==◌
abbrev pub ◌==◌ : {K : Type 0} ⦃keys : Keyed K⦄ → K → K → Bool
◌==◌ ⦃keys⦄ j k = keys.same_key j k

-- A `std::string`: its bytes.
abbrev pub Text : Type 0
Text = List ℕ

abbrev pub text_eq : Text → Text → Bool
text_eq [] [] = true
text_eq [] (d ∷ t) = false
text_eq (c ∷ s) [] = false
text_eq (c ∷ s) (d ∷ t) = nat_eq c d && text_eq s t

text_eq_eq : (s t : Text) → text_eq s t ≡ true → s ≡ t
text_eq_eq [] [] h = refl
text_eq_eq [] (d ∷ t) h = cc
text_eq_eq (c ∷ s) [] h = cc
text_eq_eq (c ∷ s) (d ∷ t) h =
    let (p, q) = and_true _ _ h in ap₂ ◌∷◌ ((nat_eq_iff c d).0 p) (text_eq_eq s t q)

text_eq_refl : (s : Text) → text_eq s s ≡ true
text_eq_refl [] = refl
text_eq_refl (c ∷ s) = rw ((nat_eq_iff c c).1 refl) (text_eq_refl s)

pub text_eq_iff : (s t : Text) → (text_eq s t ≡ true) ↔ (s ≡ t)
text_eq_iff s t = (text_eq_eq s t, λ e. rw e (text_eq_refl t))

instance abbrev pub ℕ_keys : Keyed ℕ
ℕ_keys = record { same_key = nat_eq; same_key_iff = nat_eq_iff }

instance abbrev pub text_keys : Keyed Text
text_keys = record { same_key = text_eq; same_key_iff = text_eq_iff }
