-- ===== src/Health/Status.antt =====
-- How `check_http_health` reads the answer of a backend.
pub mod Answers
use loadbalancer.Base.{
  ℕ, ◌+◌, ◌-◌, ◌*◌, Bool, true, false, ◌&&◌, Option, none, some, List, [], ◌∷◌, Text, bytes, nat_eq,
  leb, ltb, if◌then◌else◌, length, index_from, index_of_text, substr, is_digit,
}

-- `space2`: at a blank, or else at the end of the line.
first_found : Option ℕ → Option ℕ → Option ℕ
first_found (some i) later = some i
first_found none later = later

status_end : ℕ → Text → Option ℕ
status_end pos s =
    first_found (index_from b' ' pos s) (first_found (index_from 13 pos s) (index_from 10 pos s))

-- The loop over the digits; `none` is the early `return false`.
read_digits : ℕ → Text → Option ℕ
read_digits acc [] = some acc
read_digits acc (c ∷ s) =
    let rest = read_digits (acc * 10 + (c - b'0')) s in if is_digit c then rest else none

abbrev is_success : Option ℕ → Bool
is_success none = false
is_success (some code) = leb 200 code && ltb code 300

judge : Text → Bool
judge status = if nat_eq (length status) 3 then is_success (read_digits 0 status) else false

judge_at : Text → ℕ → Option ℕ → Bool
judge_at response start none = false
judge_at response start (some space2) = judge (substr start (space2 - start) response)

after_space : Text → Option ℕ → Bool
after_space response none = false
after_space response (some space1) =
    judge_at response (space1 + 1) (status_end (space1 + 1) response)

after_http : Text → Option ℕ → Bool
after_http response none = false
after_http response (some http_pos) = after_space response (index_from b' ' http_pos response)

pub read_status : Text → Bool
read_status response = after_http response (index_of_text (bytes "HTTP/") response)
