-- ===== src/Admission/Addresses.antt =====
-- `is_ip_allowed` of src/core/load_balancer.cpp.
mod Tests
use loadbalancer.Base.{
  ℕ, ◌≡◌, ◌≢◌, ◌↔◌, ◌⊎◌, inl, inr, refl, sym, Bool, true, false, not, ◌&&◌, ◌||◌, Option, none,
  some, List, [], ◌∷◌, Memᴰ, arith, Text, text_eq, text_eq_iff, Bool-cases, if-keeps, is_empty,
  is_empty_iff, if◌then◌else◌,
}
use loadbalancer.Admission.Config.{Config}

-- The loops over the two lists stop at the first address that is equal.
unfoldable pub listed : Text → List Text → Bool
listed ip [] = false
listed ip (a ∷ l) = text_eq ip a || listed ip l

unfoldable pub passes_lists : Text → Config → Bool
passes_lists ip config =
    if listed ip config.ip_blacklist
    then false
    else (if is_empty config.ip_whitelist then true else listed ip config.ip_whitelist)

unfoldable pub is_ip_allowed : Text → Option Config → Bool
is_ip_allowed ip none = true
is_ip_allowed ip (some config) = if is_empty ip then true else passes_lists ip config

listed_sound : (ip : Text) (l : List Text) → listed ip l ≡ true → Memᴰ ip l
unfolding listed
listed_sound ip [] h = ground (arith, h)
listed_sound ip (a ∷ l) h = elim (Bool-cases (text_eq ip a)) [
  | inl e ↦ Memᴰ.head ((text_eq_iff ip a).0 e)
  | inr e ↦ Memᴰ.tail (listed_sound ip l (ground (arith, h, e)))
]

listed_complete : (ip : Text) (l : List Text) → Memᴰ ip l → listed ip l ≡ true
unfolding listed
listed_complete ip [] h = elim h [ ]
listed_complete ip (a ∷ l) (Memᴰ.head e) = ground (arith, (text_eq_iff ip a).1 e)
listed_complete ip (a ∷ l) (Memᴰ.tail m) = ground (arith, listed_complete ip l m)

unlisted : (ip : Text) (l : List Text) → ¬ Memᴰ ip l → listed ip l ≡ false
unlisted ip l h = elim (Bool-cases (listed ip l)) [
  | inl e ↦ elim (h (listed_sound ip l e)) [ ]
  | inr e ↦ e
]

-- A configuration lets an address in that is known exactly if the black list does not have it, and
-- the white list is empty or has it; called with an empty address it lets in, but `handle_accept` calls
-- it with the name "unknown" instead.
pub is_ip_allowed_iff :
    (ip : Text) (config : Config)
    → (is_ip_allowed ip (some config) ≡ true) ↔ (
        (ip ≡ [])
        ⊎ (¬ Memᴰ ip config.ip_blacklist
            × ((config.ip_whitelist ≡ []) ⊎ Memᴰ ip config.ip_whitelist)))
unfolding is_ip_allowed passes_lists
is_ip_allowed_iff ip config = (
  λ h. elim (Bool-cases (is_empty ip)) [
    | inl e ↦ inl ((is_empty_iff ip).0 e)
    | inr e ↦ inr (
      λ m. ground (arith, h, e, listed_complete ip config.ip_blacklist m),
      elim (Bool-cases (is_empty config.ip_whitelist)) [
        | inl w ↦ inl ((is_empty_iff config.ip_whitelist).0 w)
        | inr w ↦ inr (listed_sound ip config.ip_whitelist (ground (arith, h, e, w)))
      ],
    )
  ],
  λ h. elim h [
    | inl e ↦ ground (arith, (is_empty_iff ip).1 e)
    | inr k ↦
        if-keeps (λ (b : Bool). b ≡ true) (is_empty ip) (λ e. refl)
          (λ e. elim k.1 [
            | inl w ↦
                ground (
                  arith,
                  unlisted ip config.ip_blacklist k.0,
                  (is_empty_iff config.ip_whitelist).1 w,
                )
            | inr w ↦ ground (
              arith,
              unlisted ip config.ip_blacklist k.0,
              listed_complete ip config.ip_whitelist w,
            )
          ])
  ],
)
