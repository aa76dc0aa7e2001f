-- ===== src/Base/Bytes.antt =====
-- Bytes of texts: literals, ASCII case and the searches of `std::string`. A position is a number,
-- and `none` stands for `npos`.
use Prim.Native.Nat.{ℕ, zero, suc, ◌+◌, ◌/◌, ◌%◌}
use Prim.Native.Char.{code}
use Prim.Native.String.{String}
use mathlib.Core.Path.{◌≡◌, refl}
use mathlib.Core.Logic.{◌≢◌}
use mathlib.Core.Bool.{Bool, true, false, ◌&&◌}
use mathlib.Core.List.{[], ◌∷◌, ◌++◌, map, reverse}
use mathlib.Core.Option
use mathlib.Core.Option.{Option, none, some}
use loadbalancer.Base.Compare.{leb, ltb, nat_eq, nat_eq-false, nat_eq_iff, if◌then◌else◌}
use loadbalancer.Base.Lists.{length, take, drop, All, is_empty}
use loadbalancer.Base.Keys.{Text}

-- The bytes of an ASCII literal.
abbrev pub bytes : String → Text
bytes String.[] = []
bytes (String.◌∷◌ c s) = code c ∷ bytes s

-- The end of a line, CR and LF.
abbrev pub crlf : Text
crlf = 13 ∷ 10 ∷ []

-- `s.find(c)`
abbrev pub index_of : ℕ → Text → Option ℕ
index_of c [] = none
index_of c (x ∷ s) = let later = index_of c s in if nat_eq x c then some 0 else Option.map suc later

-- `s.find(c, pos)`
abbrev pub index_from : ℕ → ℕ → Text → Option ℕ
index_from c pos s = Option.map (λ i. pos + i) (index_of c (drop pos s))

abbrev pub starts_with : Text → Text → Bool
starts_with [] s = true
starts_with (c ∷ p) [] = false
starts_with (c ∷ p) (d ∷ s) = nat_eq c d && starts_with p s

-- `s.find(p)` for a text `p`
abbrev pub index_of_text : Text → Text → Option ℕ
index_of_text p [] = if is_empty p then some 0 else none
index_of_text p (x ∷ s) =
    let later = index_of_text p s in if starts_with p (x ∷ s) then some 0 else Option.map suc later

-- `s.substr(pos, count)`
abbrev pub substr : ℕ → ℕ → Text → Text
substr pos count s = take count (drop pos s)

abbrev pub is_digit : ℕ → Bool
is_digit c = leb b'0' c && leb c b'9'

-- `std::tolower` in the C locale.
abbrev pub to_lower : ℕ → ℕ
to_lower c = if leb b'A' c && leb c b'Z' then c + 32 else c

abbrev pub lower : Text → Text
lower s = map to_lower s

-- Leading bytes that pass the test are dropped.
abbrev pub drop_while : (ℕ → Bool) → Text → Text
drop_while p [] = []
drop_while p (c ∷ s) = let rest = drop_while p s in if p c then rest else c ∷ s

-- Those at the end.
abbrev pub drop_last_while : (ℕ → Bool) → Text → Text
drop_last_while p s = reverse (drop_while p (reverse s))

abbrev pub Lacks : ℕ → Text → Type 0
Lacks c s = All (λ x. x ≢ c) s

-- A byte is found right behind a text that lacks it.
pub index_of-append : (c : ℕ) (s t : Text) → Lacks c s → index_of c (s ++ c ∷ t) ≡ some (length s)
index_of-append c [] t h = rw ((nat_eq_iff c c).1 refl)
index_of-append c (x ∷ s) t h = rw (nat_eq-false x c h.0, index_of-append c s t h.1)

pub index_of-none : (c : ℕ) (s : Text) → Lacks c s → index_of c s ≡ none
index_of-none c [] h = refl
index_of-none c (x ∷ s) h = rw (nat_eq-false x c h.0, index_of-none c s h.1)

-- `std::to_string` of a number that is not negative: the fuel is the number itself and one more.
decimal_loop : ℕ → ℕ → Text → Text
decimal_loop zero n acc = acc
decimal_loop (suc f) n acc =
    let rest = decimal_loop f (n / 10) ((b'0' + n % 10) ∷ acc) in
    if ltb n 10 then (b'0' + n) ∷ acc else rest

unfoldable pub decimal : ℕ → Text
unfolding decimal_loop
decimal n = decimal_loop (n + 1) n []
