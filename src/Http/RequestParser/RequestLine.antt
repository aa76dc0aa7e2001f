-- ===== src/Http/RequestParser/RequestLine.antt =====
-- The request line of src/core/http_data_forwarder.cpp, read back by src/http/http_request.cpp.
use loadbalancer.Base.{
  is_empty_iff, ◌≢◌, All-append, ℕ, ◌+◌, ◌≡◌, inl, inr, refl, sym, ap, ◌∙◌, Bool, true, false, not,
  some, [], ◌∷◌, ◌++◌, arith, length, Text, Lacks, All, find, text_keys, index_of, index_of-append,
  index_of-none, drop, take-append, is_empty, if-keeps, Bool-cases, is_space, read_word, take_while,
  drop_while,
}
use loadbalancer.Http.Message.{
  HttpRequest, HttpMethod, get, post, put, delete, patch, head, options, unknown_method,
  HttpVersion, http_1_0, http_1_1, http_2_0, unknown_version, method_from_string, method_to_string,
  version_from_string, version_to_string, or_unknown_method, new_request,
}
use loadbalancer.Http.RequestParser.{headers, new_parser, set_target}
use loadbalancer.Http.RequestParser.Lines.{OneLine}
use loadbalancer.Http.RequestParser.Split.{Words, after_words}
use loadbalancer.Http.RequestParser.Headers.{drop-append-suc, IsHeader, Fresh, Declares, reading}
use loadbalancer.Http.RequestParser.Serialized.{target, print_line}

pub method_from_string-method_to_string :
    (m : HttpMethod) → method_from_string (method_to_string m) ≡ m
unfolding method_from_string method_to_string find or_unknown_method
method_from_string-method_to_string get = refl
method_from_string-method_to_string post = refl
method_from_string-method_to_string put = refl
method_from_string-method_to_string delete = refl
method_from_string-method_to_string patch = refl
method_from_string-method_to_string head = refl
method_from_string-method_to_string options = refl
method_from_string-method_to_string unknown_method = refl

pub version_from_string-version_to_string :
    (v : HttpVersion) → v ≢ unknown_version → version_from_string (version_to_string v) ≡ v
unfolding version_from_string version_to_string
version_from_string-version_to_string http_1_0 h = refl
version_from_string-version_to_string http_1_1 h = refl
version_from_string-version_to_string http_2_0 h = refl
version_from_string-version_to_string unknown_version h = let x : ⊥ = h refl in elim x [ ]

-- No white space.
abbrev pub Solid : Text → Type 0
Solid s = All (λ c. is_space c ≡ false) s

Solid-OneLine : (s : Text) → Solid s → OneLine s
Solid-OneLine [] h = (tt, tt)
Solid-OneLine (c ∷ s) h =
    let k = Solid-OneLine s h.1 in
    (
      ((λ e. let q : true ≡ false = rw e at h.0 in cc), k.0),
      ((λ e. let q : true ≡ false = rw e at h.0 in cc), k.1),
    )

take_while-append : (s t : Text) → Solid s → take_while (λ c. not (is_space c)) (s ++ b' ' ∷ t) ≡ s
take_while-append [] t h = refl
take_while-append (c ∷ s) t h = rw (h.0) (ap (◌∷◌ c) (take_while-append s t h.1))

drop_while-append :
    (s t : Text) → Solid s → drop_while (λ c. not (is_space c)) (s ++ b' ' ∷ t) ≡ b' ' ∷ t
drop_while-append [] t h = refl
drop_while-append (c ∷ s) t h = rw (h.0) (drop_while-append s t h.1)

drop_while-keeps : (p : ℕ → Bool) (c : ℕ) (s : Text) → p c ≡ false → drop_while p (c ∷ s) ≡ c ∷ s
drop_while-keeps p c s h = rw h refl

read_word-append :
    (s t : Text) → is_empty s ≡ false → Solid s → read_word (s ++ b' ' ∷ t) ≡ some (s, b' ' ∷ t)
read_word-append [] t e h = cc
read_word-append (c ∷ s) t e h = rw (drop_while-keeps is_space c (s ++ b' ' ∷ t) h.0) (
    ap (λ w. some (w, drop_while (λ c. not (is_space c)) (c ∷ s ++ b' ' ∷ t)))
      (take_while-append (c ∷ s) t h)
    ∙ ap (λ w. some (c ∷ s, w)) (drop_while-append (c ∷ s) t h))

version_word :
    (v : HttpVersion) → read_word (b' ' ∷ version_to_string v) ≡ some (version_to_string v, [])
unfolding version_to_string
version_word http_1_0 = refl
version_word http_1_1 = refl
version_word http_2_0 = refl
version_word unknown_version = refl

method_Solid : (m : HttpMethod) → Solid (method_to_string m)
unfolding method_to_string
method_Solid get = search
method_Solid post = search
method_Solid put = search
method_Solid delete = search
method_Solid patch = search
method_Solid head = search
method_Solid options = search
method_Solid unknown_method = search

method_full : (m : HttpMethod) → is_empty (method_to_string m) ≡ false
unfolding method_to_string
method_full get = refl
method_full post = refl
method_full put = refl
method_full delete = refl
method_full patch = refl
method_full head = refl
method_full options = refl
method_full unknown_method = refl

version_Solid : (v : HttpVersion) → Solid (version_to_string v)
unfolding version_to_string
version_Solid http_1_0 = search
version_Solid http_1_1 = search
version_Solid http_2_0 = search
version_Solid unknown_version = search

-- A request that can be told from its text: the path is not empty and has no `?`, neither it nor the
-- query has white space, the version is known, the headers are `IsHeader`, no name comes twice, and
-- they declare the length of the body.
pub record IsPlain (r : HttpRequest) : Type 0 where
  pub path_full : is_empty r.path ≡ false
  pub path_solid : Solid r.path
  pub path_plain : Lacks b'?' r.path
  pub query_solid : Solid r.query_string
  pub version_known : r.version ≢ unknown_version
  pub headers_plain : All IsHeader r.headers
  pub names : Fresh [] r.headers
  pub length_declared : Declares 0 r.headers (length r.body)

target-Solid : (r : HttpRequest) → IsPlain r → Solid (target r)
unfolding target
target-Solid r h =
    if-keeps Solid (is_empty r.query_string) (λ e. h.path_solid)
      (λ e.
        All-append (λ c. is_space c ≡ false) r.path (b'?' ∷ r.query_string) h.path_solid
          (refl, h.query_solid))

append-is_empty : (s t : Text) → is_empty s ≡ false → is_empty (s ++ t) ≡ false
append-is_empty [] t h = cc
append-is_empty (c ∷ s) t h = refl

target-full : (r : HttpRequest) → IsPlain r → is_empty (target r) ≡ false
unfolding target
target-full r h =
    if-keeps (λ (t : Text). is_empty t ≡ false) (is_empty r.query_string) (λ e. h.path_full)
      (λ e. append-is_empty r.path (b'?' ∷ r.query_string) h.path_full)

-- The target is cut where it was joined.
set_target-target :
    (r : HttpRequest) (m : HttpMethod)
    → IsPlain r
    → set_target (target r) (index_of b'?' (target r)) (record new_request { method = m })
      ≡ record new_request { method = m; path = r.path; query_string = r.query_string }
unfolding target set_target
set_target-target r m h = elim (Bool-cases (is_empty r.query_string)) [
  | inl f ↦ rw f (
      rw (index_of-none b'?' r.path h.path_plain) (
        ap (λ t. record new_request { method = m; path = r.path; query_string = t })
          (sym ((is_empty_iff r.query_string).0 f))))
  | inr f ↦ rw f (
      rw (index_of-append b'?' r.path r.query_string h.path_plain) (
        ap
          (λ t. record new_request {
            method = m;
            path = t;
            query_string = drop (length r.path + 1) (r.path ++ b'?' ∷ r.query_string);
          })
          (take-append r.path (b'?' ∷ r.query_string))
        ∙ ap (λ t. record new_request { method = m; path = r.path; query_string = t })
            (drop-append-suc r.path r.query_string b'?')))
]

pub print_line-Words : (r : HttpRequest) → IsPlain r → Words (print_line r)
unfolding print_line
print_line-Words r h =
    let rest = b' ' ∷ version_to_string r.version in
    record {
      method = method_to_string r.method;
      target = target r;
      version = version_to_string r.version;
      behind_method = b' ' ∷ (target r ++ rest);
      behind_target = rest;
      behind = [];
      first =
          read_word-append (method_to_string r.method) (target r ++ rest) (method_full r.method)
            (method_Solid r.method);
      second =
          read_word-append (target r) (version_to_string r.version) (target-full r h)
            (target-Solid r h);
      third = version_word r.version;
    }

OneLine-append : (s t : Text) → OneLine s → OneLine t → OneLine (s ++ t)
OneLine-append s t h k =
    (All-append (λ x. x ≢ 13) s t h.0 k.0, All-append (λ x. x ≢ 10) s t h.1 k.1)

blank_OneLine : (t : Text) → OneLine t → OneLine (b' ' ∷ t)
blank_OneLine t h = (((λ e. omega arith), h.0), ((λ e. omega arith), h.1))

pub print_line-OneLine : (r : HttpRequest) → IsPlain r → OneLine (print_line r)
unfolding print_line
print_line-OneLine r h =
    let version = version_to_string r.version in
    let rest = target r ++ (b' ' ∷ version) in
    OneLine-append (method_to_string r.method) (b' ' ∷ rest)
      (Solid-OneLine (method_to_string r.method) (method_Solid r.method))
      (blank_OneLine rest (
        OneLine-append (target r) (b' ' ∷ version) (Solid-OneLine (target r) (target-Solid r h))
          (blank_OneLine version (Solid-OneLine version (version_Solid r.version)))))

-- The parser behind the request line.
pub after_line :
    (r : HttpRequest) (h : IsPlain r)
    → record (after_words (print_line-Words r h) new_parser) { state = headers }
      ≡ reading (record r { body = [] }) [] 0
unfolding print_line-Words new_parser
after_line r h =
    rw
      (
        set_target-target r (method_from_string (method_to_string r.method)) h,
        method_from_string-method_to_string r.method,
        version_from_string-version_to_string r.version h.version_known,
      )
      refl
