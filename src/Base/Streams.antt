-- ===== src/Base/Streams.antt =====
-- What the parsers use of `std::istringstream` and `std::stoul`, in the C locale.
use Prim.Native.Nat.{ℕ, ◌+◌, ◌*◌, ◌-◌}
use mathlib.Core.Bool.{Bool, true, false, ◌||◌, ◌&&◌, not}
use mathlib.Core.List.{[], ◌∷◌}
use mathlib.Core.Option.{Option, none, some}
use loadbalancer.Base.Compare.{leb, ltb, nat_eq, u64_mod, u64, if◌then◌else◌}
use loadbalancer.Base.Lists.{is_empty}
use loadbalancer.Base.Keys.{Text}
use loadbalancer.Base.Bytes.{drop_while, is_digit, decimal}

-- `std::isspace`
abbrev pub is_space : ℕ → Bool
is_space c = nat_eq c 32 || leb 9 c && leb c 13

abbrev pub take_while : (ℕ → Bool) → Text → Text
take_while p [] = []
take_while p (c ∷ s) = let rest = take_while p s in if p c then c ∷ rest else []

-- `iss >> word`: `none` is the failure, where the stream has no word left.
abbrev pub read_word : Text → Option (Text × Text)
read_word s =
    let s' = drop_while is_space s in
    if is_empty s'
    then none
    else some (take_while (λ c. not (is_space c)) s', drop_while (λ c. not (is_space c)) s')

digits_value : ℕ → Text → ℕ
digits_value acc [] = acc
digits_value acc (c ∷ s) =
    let rest = digits_value (acc * 10 + (c - b'0')) s in if is_digit c then rest else acc

-- The digits at the front; `none` where there is none, or where the value does not fit.
unsigned_digits : Text → Option ℕ
unsigned_digits [] = none
unsigned_digits (c ∷ s) =
    let n = digits_value 0 (c ∷ s) in if is_digit c && ltb n u64_mod then some n else none

-- The value is negated modulo 2 ^ 64 behind a minus sign.
after_sign : Text → Option ℕ
after_sign [] = none
after_sign (c ∷ s) =
    if nat_eq c b'+'
    then unsigned_digits s
    else if nat_eq c b'-'
    then negated (unsigned_digits s)
    else unsigned_digits (c ∷ s)
  where
    negated : Option ℕ → Option ℕ
    negated none = none
    negated (some n) = some (u64 (u64_mod - n))

-- `std::stoul(s)`, where `none` is the exception.
unfoldable pub stoul : Text → Option ℕ
unfolding after_sign unsigned_digits digits_value
stoul s = after_sign (drop_while is_space s)

-- An `int`, by its sign.
pub data ℤ : Type 0 where
  pos : ℕ → ℤ
  negsuc : ℕ → ℤ

within_int : Bool → Text → Option ℤ
within_int minus [] = none
within_int minus (c ∷ s) =
    let n = digits_value 0 (c ∷ s) in
    if not (is_digit c)
    then none
    else if minus && not (nat_eq n 0)
    then if leb n 2147483648 then some (negsuc (n - 1)) else none
    else if leb n 2147483647
    then some (pos n)
    else none

signed : Text → Option ℤ
signed [] = none
signed (c ∷ s) =
    if nat_eq c b'+'
    then within_int false s
    else if nat_eq c b'-'
    then within_int true s
    else within_int false (c ∷ s)

-- `std::stoi(s)`, where `none` is the exception.
unfoldable pub stoi : Text → Option ℤ
unfolding signed within_int digits_value
stoi s = signed (drop_while is_space s)

-- `<<` of an `int`.
unfoldable pub decimal_int : ℤ → Text
decimal_int (pos n) = decimal n
decimal_int (negsuc n) = b'-' ∷ decimal (n + 1)
