-- ===== src/Http/Message.antt =====
-- src/http/http_request.h, and of http_request.cpp all but the parser. The map of the headers is a
-- list in the order of its iteration.
pub mod Cookies
use loadbalancer.Base.{
  ℕ, zero, suc, ◌+◌, Bool, true, false, not, ◌&&◌, ◌||◌, Option, none, some, List, [], ◌∷◌, ◌++◌,
  length, Text, text_keys, ◌==◌, bytes, Map, find, index_of, take, drop, drop_while,
  drop_last_while, to_lower, nat_eq, is_empty, if◌then◌else◌, take_while,
}

pub data HttpMethod : Type 0 where
  get post put delete patch head options unknown_method : HttpMethod

pub data HttpVersion : Type 0 where
  http_1_0 http_1_1 http_2_0 unknown_version : HttpVersion

pub record HttpRequest : Type 0 where
  pub method : HttpMethod
  pub path : Text
  pub query_string : Text
  pub version : HttpVersion
  pub headers : Map Text Text
  pub body : Text

abbrev pub new_request : HttpRequest
new_request = record {
  method = unknown_method;
  path = [];
  query_string = [];
  version = unknown_version;
  headers = [];
  body = [];
}

unfoldable pub or_unknown_method : Option HttpMethod → HttpMethod
or_unknown_method none = unknown_method
or_unknown_method (some m) = m

-- The tests of `method_from_string`, in their order.
abbrev pub methods : Map Text HttpMethod
methods =
    (bytes "GET", get)
    ∷ (bytes "POST", post)
    ∷ (bytes "PUT", put)
    ∷ (bytes "DELETE", delete)
    ∷ (bytes "PATCH", patch)
    ∷ (bytes "HEAD", head)
    ∷ (bytes "OPTIONS", options)
    ∷ []

unfoldable pub method_from_string : Text → HttpMethod
unfolding or_unknown_method find
method_from_string s = or_unknown_method (find s methods)

unfoldable pub method_to_string : HttpMethod → Text
method_to_string get = bytes "GET"
method_to_string post = bytes "POST"
method_to_string put = bytes "PUT"
method_to_string delete = bytes "DELETE"
method_to_string patch = bytes "PATCH"
method_to_string head = bytes "HEAD"
method_to_string options = bytes "OPTIONS"
method_to_string unknown_method = bytes "UNKNOWN"

unfoldable pub version_from_string : Text → HttpVersion
version_from_string s =
    if s == bytes "HTTP/1.0"
    then http_1_0
    else if s == bytes "HTTP/1.1"
    then http_1_1
    else if s == bytes "HTTP/2.0" || s == bytes "HTTP/2"
    then http_2_0
    else unknown_version

unfoldable pub version_to_string : HttpVersion → Text
version_to_string http_1_0 = bytes "HTTP/1.0"
version_to_string http_1_1 = bytes "HTTP/1.1"
version_to_string http_2_0 = bytes "HTTP/2.0"
version_to_string unknown_version = bytes "HTTP/1.1"

-- The lengths are the same, and so are the letters but for their case.
abbrev pub same_letters : Text → Text → Bool
same_letters [] [] = true
same_letters [] (d ∷ t) = false
same_letters (c ∷ s) [] = false
same_letters (c ∷ s) (d ∷ t) = nat_eq (to_lower c) (to_lower d) && same_letters s t

unfoldable pub find_letters : Text → Map Text Text → Text
find_letters name [] = []
find_letters name ((key, value) ∷ headers) =
    let rest = find_letters name headers in if same_letters key name then value else rest

unfoldable pub header_found : Text → Map Text Text → Option Text → Text
header_found name headers (some value) = value
header_found name headers none = find_letters name headers

unfoldable pub get_header : Text → HttpRequest → Text
get_header name r = header_found name r.headers (find name r.headers)

unfoldable pub has_header : Text → HttpRequest → Bool
has_header name r = not (is_empty (get_header name r))

unfoldable pub get_host : HttpRequest → Text
get_host r = get_header (bytes "Host") r

abbrev before_comma : Text → Option ℕ → Text
before_comma xff none = xff
before_comma xff (some comma) = take comma xff

pub get_client_ip : HttpRequest → Text
get_client_ip r =
    let xff = get_header (bytes "X-Forwarded-For") r in
    if not (is_empty xff)
    then before_comma xff (index_of b',' xff)
    else get_header (bytes "X-Real-IP") r

abbrev pub is_blank : ℕ → Bool
is_blank c = nat_eq c b' '

abbrev is_separator : ℕ → Bool
is_separator c = nat_eq c b' ' || nat_eq c b';'

-- Blanks go from both ends.
abbrev trim : Text → Text
trim s = drop_last_while is_blank (drop_while is_blank s)

-- The value behind `=`, up to `;`.
cookie_value : Text → Text
cookie_value s =
    drop_last_while is_blank (take_while (λ c. not (nat_eq c b';')) (drop_while is_blank s))

-- The loop goes on behind the next `;`, if there is one.
next_cookie : (Text → Option Text) → Text → Option ℕ → Option Text
next_cookie next s none = some []
next_cookie next s (some i) = next (drop (i + 1) s)

cookie_at : (Text → Option Text) → Text → Text → Option ℕ → Option Text
cookie_at next name s none = some []
cookie_at next name s (some i) =
    if same_letters (trim (take i s)) name
    then some (cookie_value (drop (i + 1) s))
    else next_cookie next (drop i s) (index_of b';' (drop i s))

-- `s` is the header from `pos` on; `none` means that the fuel ran out.
cookie_loop : ℕ → Text → Text → Option Text
cookie_loop zero name s = none
cookie_loop (suc fuel) name s =
    let s' = drop_while is_separator s in
    let rest = cookie_at (cookie_loop fuel name) name s' (index_of b'=' s') in
    if is_empty s' then some [] else rest

pub get_cookie : Text → HttpRequest → Option Text
get_cookie name r =
    let header = get_header (bytes "Cookie") r in
    if is_empty header then some [] else cookie_loop (length header + 1) name header
