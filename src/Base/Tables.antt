-- ===== src/Base/Tables.antt =====
-- `std::unordered_map` as an association list: the order of the list is the order of iteration.
use mathlib.Core.Path.{◌≡◌, refl, ◌∙◌}
use mathlib.Core.Bool.{Bool}
use mathlib.Core.List.{List, [], ◌∷◌}
use mathlib.Core.Option.{Option, none, some}
use native.Mathlib.Omega.{arith}
use loadbalancer.Base.Compare.{if◌then◌else◌, if-same, if-keeps}
use loadbalancer.Base.Lists.{keep_if, All, OnSome}
use loadbalancer.Base.Keys.{Keyed, ◌==◌}

abbrev pub Map : Type 0 → Type 0 → Type 0
Map K V = List (K × V)

module _ {K V : Type 0} ⦃keys : Keyed K⦄ where
  unfoldable pub find : K → Map K V → Option V
  find k [] = none
  find k ((j, v) ∷ m) = if j == k then some v else find k m

  -- `m[k] = v`
  unfoldable pub assign : K → V → Map K V → Map K V
  assign k v [] = (k, v) ∷ []
  assign k v ((j, w) ∷ m) = if j == k then (k, v) ∷ m else (j, w) ∷ assign k v m

  -- `m.erase(k)`
  unfoldable pub erase : K → Map K V → Map K V
  erase k [] = []
  erase k ((j, w) ∷ m) = if j == k then erase k m else (j, w) ∷ erase k m

  pub find-assign :
      (k j : K) (v : V) (m : Map K V)
      → find j (assign k v m) ≡ (if k == j then some v else find j m)
  unfolding find assign
  find-assign k j v [] = refl
  find-assign k j v ((i, w) ∷ m) = ground (
    arith,
    keys.same_key_iff k j,
    keys.same_key_iff i k,
    keys.same_key_iff i j,
    find-assign k j v m,
  )

  pub find-erase :
      (k j : K) (m : Map K V) → find j (erase k m) ≡ (if k == j then none else find j m)
  unfolding find erase
  find-erase k j [] = ground arith
  find-erase k j ((i, w) ∷ m) =
      ground (
        arith,
        keys.same_key_iff k j,
        keys.same_key_iff i k,
        keys.same_key_iff i j,
        find-erase k j m,
      )

  -- What is not there is still not there when something else goes.
  pub find-erase-none : (k j : K) (m : Map K V) → find j m ≡ none → find j (erase k m) ≡ none
  find-erase-none k j m h = find-erase k j m ∙ if-same (k == j) h

  pub find-erase_self : (k : K) (m : Map K V) → find k (erase k m) ≡ none
  find-erase_self k m = find-erase k k m ∙ rw ((keys.same_key_iff k k).1 refl)

  pub find-assign_self : (k : K) (v : V) (m : Map K V) → find k (assign k v m) ≡ some v
  find-assign_self k v m = find-assign k k v m ∙ rw ((keys.same_key_iff k k).1 refl)

  pub find-keep_if-none :
      (p : K × V → Bool) (k : K) (m : Map K V) → find k m ≡ none → find k (keep_if p m) ≡ none
  unfolding find
  find-keep_if-none p k [] h = refl
  find-keep_if-none p k ((j, v) ∷ m) h = ground (arith, find-keep_if-none p k m)

  -- What every value of a map has, and what is found in it.
  pub assign-All {κ} :
      (P : V → Type κ) (k : K) (v : V) (m : Map K V)
      → P v
      → All (λ (e : K × V). P e.1) m
      → All (λ (e : K × V). P e.1) (assign k v m)
  unfolding assign
  assign-All P k v [] p h = (p, tt)
  assign-All P k v ((j, w) ∷ m) p h =
      if-keeps (λ l. All (λ (e : K × V). P e.1) l) (j == k) (λ e. (p, h.1))
        (λ e. (h.0, assign-All P k v m p h.1))

  pub find-OnSome {κ} :
      (P : V → Type κ) (k : K) (m : Map K V) → All (λ (e : K × V). P e.1) m → OnSome P (find k m)
  unfolding find
  find-OnSome P k [] h = tt
  find-OnSome P k ((j, w) ∷ m) h =
      if-keeps (OnSome P) (j == k) (λ e. h.0) (λ e. find-OnSome P k m h.1)
