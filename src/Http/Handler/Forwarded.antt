-- ===== src/Http/Handler/Forwarded.antt =====
-- modify_request_headers of src/http/http_handler.cpp, as the backend sees the request.
use loadbalancer.Base.{
  ◌||◌, ◌⊎◌, ◌≡◌, refl, ◌∙◌, Bool, true, false, not, ◌++◌, Text, text_keys, ◌==◌, find, find-assign,
  find-assign_self, is_empty, bytes, if◌then◌else◌, if-keeps, Bool-cases, inl, inr, some,
}
use loadbalancer.Http.Handler.{
  set_header, set_forwarded_for, set_real_ip, set_forwarded_host, modify_request_headers,
}
use loadbalancer.Http.Message.{HttpRequest, get_header, header_found, get_host}

get_header-found :
    (name value : Text) (r : HttpRequest)
    → find name r.headers ≡ some value
    → get_header name r ≡ value
unfolding get_header header_found
get_header-found name value r h = rw h refl

find-set_header_other :
    (name value k : Text) (r : HttpRequest)
    → (name == k) ≡ false
    → find k (set_header name value r).headers ≡ find k r.headers
unfolding set_header
find-set_header_other name value k r h = find-assign name k value r.headers ∙ rw h refl

find-set_header_same :
    (name value : Text) (r : HttpRequest) → find name (set_header name value r).headers ≡ some value
unfolding set_header
find-set_header_same name value r = find-assign_self name value r.headers

-- The headers of another name stay.
Keeps : Text → HttpRequest → HttpRequest → Type 0
Keeps k r q = find k q.headers ≡ find k r.headers

module _ (k : Text) (r : HttpRequest) where
  set_forwarded_for-Keeps :
      (ip old : Text)
      → (bytes "X-Forwarded-For" == k) ≡ false
      → Keeps k r (set_forwarded_for ip old r)
  unfolding set_forwarded_for Keeps
  set_forwarded_for-Keeps ip old h =
      if-keeps (Keeps k r) (is_empty old)
        (λ e. find-set_header_other (bytes "X-Forwarded-For") ip k r h)
        (λ e. find-set_header_other (bytes "X-Forwarded-For") (old ++ (bytes ", " ++ ip)) k r h)

  set_real_ip-Keeps : (ip : Text) → (bytes "X-Real-IP" == k) ≡ false → Keeps k r (set_real_ip ip r)
  unfolding set_real_ip Keeps
  set_real_ip-Keeps ip h =
      if-keeps (Keeps k r) (not (is_empty ip))
        (λ e. find-set_header_other (bytes "X-Real-IP") ip k r h) (λ e. refl)

  set_forwarded_host-Keeps :
      (bytes "X-Forwarded-Host" == k) ≡ false → Keeps k r (set_forwarded_host r)
  unfolding set_forwarded_host Keeps
  set_forwarded_host-Keeps h =
      if-keeps (Keeps k r) (not (is_empty (get_host r)))
        (λ e. find-set_header_other (bytes "X-Forwarded-Host") (get_host r) k r h) (λ e. refl)

-- The steps of `modify_request_headers`.
abbrev step_for : Text → HttpRequest → HttpRequest
step_for ip r = set_forwarded_for ip (get_header (bytes "X-Forwarded-For") r) r

abbrev scheme : Bool → Text
scheme is_https = if is_https then bytes "https" else bytes "http"

abbrev step_proto : Text → Bool → HttpRequest → HttpRequest
step_proto ip is_https r =
    set_header (bytes "X-Forwarded-Proto") (scheme is_https) (set_real_ip ip (step_for ip r))

find-modify_request_headers :
    (ip : Text) (is_https : Bool) (k : Text) (r : HttpRequest)
    → (bytes "X-Forwarded-For" == k) ≡ false
    → (bytes "X-Real-IP" == k) ≡ false
    → (bytes "X-Forwarded-Proto" == k) ≡ false
    → (bytes "X-Forwarded-Host" == k) ≡ false
    → find k (modify_request_headers ip is_https r).headers ≡ find k r.headers
unfolding modify_request_headers Keeps
find-modify_request_headers ip is_https k r a b c d =
    set_forwarded_host-Keeps k (step_proto ip is_https r) d
    ∙ find-set_header_other (bytes "X-Forwarded-Proto") (scheme is_https) k
        (set_real_ip ip (step_for ip r)) c
    ∙ set_real_ip-Keeps k (step_for ip r) ip b
    ∙ set_forwarded_for-Keeps k r ip (get_header (bytes "X-Forwarded-For") r) a

-- The chain of proxies, with the client behind it.
abbrev chain : Text → Text → Text
chain old ip = if is_empty old then ip else old ++ (bytes ", " ++ ip)

find-set_forwarded_for :
    (ip old : Text) (r : HttpRequest)
    → find (bytes "X-Forwarded-For") (set_forwarded_for ip old r).headers ≡ some (chain old ip)
unfolding set_forwarded_for
find-set_forwarded_for ip old r = elim (Bool-cases (is_empty old)) [
  | inl e ↦ rw e (find-set_header_same (bytes "X-Forwarded-For") ip r)
  | inr e ↦ rw e (find-set_header_same (bytes "X-Forwarded-For") (old ++ (bytes ", " ++ ip)) r)
]

-- The names that `modify_request_headers` writes.
abbrev is_written : Text → Bool
is_written k =
    bytes "X-Forwarded-For" == k
    || (bytes "X-Real-IP" == k || (bytes "X-Forwarded-Proto" == k || bytes "X-Forwarded-Host" == k))

-- What the backend is told of the client.
pub record IsForwarded (ip : Text) (is_https : Bool) (r q : HttpRequest) : Type 0 where
  pub proxies :
      get_header (bytes "X-Forwarded-For") q ≡ chain (get_header (bytes "X-Forwarded-For") r) ip
  pub client : get_header (bytes "X-Real-IP") q ≡ ip
  pub scheme_is : get_header (bytes "X-Forwarded-Proto") q ≡ scheme is_https
  pub others : (k : Text) → (is_written k ≡ true) ⊎ (find k q.headers ≡ find k r.headers)

or_false : (a b : Bool) → (a || b) ≡ false → (a ≡ false) × (b ≡ false)
or_false false b h = (refl, h)
or_false true b h = cc

kept :
    (ip : Text) (is_https : Bool) (k : Text) (r : HttpRequest)
    → is_written k ≡ false
    → find k (modify_request_headers ip is_https r).headers ≡ find k r.headers
kept ip is_https k r h =
    let (a, h1) = or_false (bytes "X-Forwarded-For" == k) _ h in
    let (b, h2) = or_false (bytes "X-Real-IP" == k) _ h1 in
    let (c, d) = or_false (bytes "X-Forwarded-Proto" == k) _ h2 in
    find-modify_request_headers ip is_https k r a b c d

-- For a client whose address is known, `modify_request_headers` puts the address behind the proxies of
-- X-Forwarded-For, in whatever letters that came, or alone where there are none, and in X-Real-IP, the
-- scheme in X-Forwarded-Proto, and leaves every header of a name other than these three and
-- X-Forwarded-Host as it was.
pub modify_request_headers-IsForwarded :
    (ip : Text) (is_https : Bool) (r : HttpRequest)
    → is_empty ip ≡ false
    → IsForwarded ip is_https r (modify_request_headers ip is_https r)
unfolding modify_request_headers set_real_ip Keeps
modify_request_headers-IsForwarded ip is_https r h =
    let q = modify_request_headers ip is_https r in
    let r1 = step_for ip r in
    let r2 = set_real_ip ip r1 in
    let r3 = step_proto ip is_https r in
    let old = get_header (bytes "X-Forwarded-For") r in
    record {
      proxies = get_header-found (bytes "X-Forwarded-For") (chain old ip) q (
          set_forwarded_host-Keeps (bytes "X-Forwarded-For") r3 refl
          ∙ find-set_header_other (bytes "X-Forwarded-Proto") (scheme is_https)
              (bytes "X-Forwarded-For") r2 refl
          ∙ set_real_ip-Keeps (bytes "X-Forwarded-For") r1 ip refl
          ∙ find-set_forwarded_for ip old r);
      client = get_header-found (bytes "X-Real-IP") ip q (
          set_forwarded_host-Keeps (bytes "X-Real-IP") r3 refl
          ∙ find-set_header_other (bytes "X-Forwarded-Proto") (scheme is_https) (bytes "X-Real-IP")
              r2 refl
          ∙ rw h (find-set_header_same (bytes "X-Real-IP") ip r1));
      scheme_is = get_header-found (bytes "X-Forwarded-Proto") (scheme is_https) q (
          set_forwarded_host-Keeps (bytes "X-Forwarded-Proto") r3 refl
          ∙ find-set_header_same (bytes "X-Forwarded-Proto") (scheme is_https) r2);
      others = λ k. elim (Bool-cases (is_written k)) [
        | inl e ↦ inl e
        | inr e ↦ inr (kept ip is_https k r e)
      ];
    }
