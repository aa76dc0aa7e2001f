-- ===== src/Forward/Http/Rejecting.antt =====
-- What HttpDataForwarder::forward (src/core/http_data_forwarder.cpp) does about requests that it cannot read.
use loadbalancer.Base.{
  ℕ, ◌≡◌, ◌⊎◌, inl, inr, refl, sym, ap, ◌∙◌, subst, Bool, true, false, not, ◌&&◌, Option, none,
  some, List, length, Text, ℕ_keys, Map, find, find-assign_self, assign-All, find-OnSome, All,
  All-append, OnSome, is_empty, ltb, if-keeps, Option-cases, arith, ◌-◌,
}
use loadbalancer.Memory.{MemoryBudget}
use loadbalancer.Net.Connection.{Connection, try_reserve_additional_bytes}
use loadbalancer.Http.Message.{HttpRequest, get_cookie}
use loadbalancer.Http.RequestParser.{Parsed, parse}
use loadbalancer.Http.RequestParser.Errors.{NoError, parse-NoError}
use loadbalancer.Http.RequestParser.Serialized.{serialize_http_request}
use loadbalancer.Http.ResponseParser
use loadbalancer.Http.ResponseParser.{serialize_http_response}
use loadbalancer.Http.Handler.{is_http_request}
use loadbalancer.Forward.Http.State.{
  HttpState, new_state, Callbacks, HttpEffect, asks, bad_request_counted, access_log,
  session_key_update, Exchange,
}
use loadbalancer.Forward.Http.Parsing.{
  or_new, state_of, put_state, emit, or_unknown, resized, released, replace_buffer, session_update,
  session_effects, edit_request, info_of, request_read, parse_and_modify_http_request,
  edit_response, response_read,
}
use loadbalancer.Forward.Http.{
  Step, goes_on, returned, then_do, request_parsed_now, parse_request, check_request,
}

-- A request that counts as read has no error.
abbrev pub Settled : HttpState → Type 0
Settled s = (s.request_parsed ≡ false) ⊎ (s.parser.has_error ≡ false)

abbrev pub is_rejection : HttpEffect → Bool
is_rejection (asks e) = false
is_rejection bad_request_counted = true
is_rejection (access_log fd i) = false
is_rejection (session_key_update fd key) = false

abbrev pub NoRejection : List HttpEffect → Type 0
NoRejection l = All (λ e. is_rejection e ≡ false) l

abbrev pub AllSettled : Map ℕ HttpState → Type 0
AllSettled m = All (λ e. Settled e.1) m

-- Every state is settled, and no request was rejected.
abbrev pub Quiet : Exchange → Type 0
Quiet x = AllSettled x.http_states × NoRejection x.effects

pub put_state-Quiet :
    (fd : ℕ) (s : HttpState) (x : Exchange) → Settled s → Quiet x → Quiet (put_state fd s x)
put_state-Quiet fd s x h k = (assign-All Settled fd s x.http_states h k.0, k.1)

pub emit-Quiet : (l : List HttpEffect) (x : Exchange) → NoRejection l → Quiet x → Quiet (emit l x)
emit-Quiet l x h k = (k.0, All-append (λ e. is_rejection e ≡ false) x.effects l k.1 h)

or_new-Settled : (o : Option HttpState) → OnSome Settled o → Settled (or_new o)
unfolding new_state
or_new-Settled none h = inl refl
or_new-Settled (some s) h = h

pub state_of-Settled : (fd : ℕ) (x : Exchange) → Quiet x → Settled (state_of fd x)
state_of-Settled fd x h =
    or_new-Settled (find fd x.http_states) (find-OnSome Settled fd x.http_states h.0)

-- What may follow a parse: the states are those of `x`, with more effects that reject nothing.
abbrev Adds : Exchange → Bool × Exchange → Type 0
Adds x (ok, y) = (y.http_states ≡ x.http_states) × NoRejection y.effects

resized-Adds :
    (message : Text) (x : Exchange) (r : Connection × MemoryBudget × Bool)
    → NoRejection x.effects
    → Adds x (resized message x r)
unfolding resized
resized-Adds message x (c, b, true) h = (refl, h)
resized-Adds message x (c, b, false) h =
    (refl, All-append (λ e. is_rejection e ≡ false) x.effects _ h (refl, (refl, tt)))

replace_buffer-Adds :
    (message : Text) (x : Exchange) → NoRejection x.effects → Adds x (replace_buffer message x)
unfolding replace_buffer released
replace_buffer-Adds message x h =
    let before = length x.from.read_buf in
    let after = length message in
    if-keeps (Adds x) (ltb before after)
      (λ e.
        resized-Adds message x (try_reserve_additional_bytes (after - before) x.from x.budget) h)
      (λ e. if-keeps (Adds x) (ltb after before) (λ f. (refl, h)) (λ f. (refl, h)))

session_update-NoRejection : (fd : ℕ) (o : Option Text) → NoRejection (session_update fd o)
unfolding session_update
session_update-NoRejection fd none = tt
session_update-NoRejection fd (some value) =
    if-keeps NoRejection (is_empty value) (λ e. tt) (λ e. (refl, tt))

session_effects-NoRejection :
    (k : Callbacks) (fd : ℕ) (r : HttpRequest) → NoRejection (session_effects k fd r)
unfolding session_effects
session_effects-NoRejection k fd r = elim (Option-cases k.session_cookie) [
  | inl e ↦ rw (e, session_effects) tt
  | inr (name, e) ↦ rw (e, session_effects) (session_update-NoRejection fd (get_cookie name r))
]

-- Behind a parse that succeeded, the state of the client has no error.
abbrev Ready : ℕ → Bool × Exchange → Type 0
Ready fd (ok, x) = Quiet x × ((ok ≡ false) ⊎ ((state_of fd x).parser.has_error ≡ false))

Adds-Ready :
    (fd : ℕ) (s : HttpState) (x : Exchange) (r : Bool × Exchange)
    → s.parser.has_error ≡ false
    → Quiet x
    → Adds (put_state fd s x) r
    → Ready fd r
Adds-Ready fd s x (ok, y) h k (e, n) =
    let q : AllSettled y.http_states =
      subst AllSettled (sym e) (put_state-Quiet fd s x (inr h) k).0 in
    (
      (q, n),
      inr (
          ap (λ m. (or_new (find fd m)).parser.has_error) e
          ∙ ap (λ o. (or_new o).parser.has_error) (find-assign_self fd s x.http_states)
          ∙ h),
    )

abbrev pub QuietStep : Step → Type 0
QuietStep (goes_on x) = Quiet x
QuietStep (returned x) = Quiet x

request_parsed_now-QuietStep :
    (fd : ℕ) (r : Bool × Exchange) → Ready fd r → QuietStep (request_parsed_now fd r)
unfolding request_parsed_now
request_parsed_now-QuietStep fd (false, x) h = h.0
request_parsed_now-QuietStep fd (true, x) (q, inl e) = cc
request_parsed_now-QuietStep fd (true, x) (q, inr e) =
    put_state-Quiet fd (record (state_of fd x) { request_parsed = true }) x (inr e) q

never : (s : HttpState) → Settled s → (s.request_parsed && s.parser.has_error) ≡ true → ⊥
never s h e = ground (arith, h, e)

request_read-Ready :
    (k : Callbacks) (fd : ℕ) (s : HttpState) (o : Option Parsed) (x : Exchange)
    → s.request_parsed ≡ false
    → OnSome NoError o
    → Quiet x
    → Ready fd (request_read k fd s o x)
unfolding request_read
request_read-Ready k fd s none x u h q = (q, inl refl)
request_read-Ready k fd s (some (false, n, p)) x u h q =
    (put_state-Quiet fd (record s { parser = p }) x (inl u) q, inl refl)
request_read-Ready k fd s (some (true, n, p)) x u (inl e) q = cc
request_read-Ready k fd s (some (true, n, p)) x u (inr e) q =
    let ip = or_unknown (k.get_client_ip fd) in
    let r = edit_request k ip p.request in
    let s' = record s {
      parser = record p { request = r };
      request_info = info_of k ip p.request s.request_info;
    } in
    let effects = session_effects k fd r in
    Adds-Ready fd s' (emit effects x)
      (replace_buffer (serialize_http_request r) (emit effects (put_state fd s' x))) e
      (emit-Quiet effects x (session_effects-NoRejection k fd r) q)
      (replace_buffer-Adds (serialize_http_request r) (emit effects (put_state fd s' x))
        (emit-Quiet effects x (session_effects-NoRejection k fd r) q).1)

pub parse_request-QuietStep :
    (k : Callbacks) (fd : ℕ) (x : Exchange) → Quiet x → QuietStep (parse_request k fd x)
unfolding parse_request parse_and_modify_http_request
parse_request-QuietStep k fd x q =
    let s = state_of fd x in
    if-keeps QuietStep s.request_parsed (λ e. put_state-Quiet fd s x (state_of-Settled fd x q) q)
      (λ e. request_parsed_now-QuietStep fd _ (
        if-keeps (Ready fd) (not (is_http_request x.from.read_buf)) (λ f. (q, inl refl))
          (λ f.
            request_read-Ready k fd s (parse x.from.read_buf s.parser) x e
              (parse-NoError x.from.read_buf s.parser) q)))

pub check_request-QuietStep :
    (k : Callbacks) (fd : ℕ) (x : Exchange) → Quiet x → QuietStep (check_request k fd x)
unfolding check_request
check_request-QuietStep k fd x q =
    let s = state_of fd x in
    if-keeps QuietStep (s.request_parsed && s.parser.has_error)
      (λ e. elim (never s (state_of-Settled fd x q) e) [ ]) (λ e. q)

pub then_do-QuietStep :
    (o : Step) (f : Exchange → Step)
    → QuietStep o
    → ((x : Exchange) → Quiet x → QuietStep (f x))
    → QuietStep (then_do o f)
unfolding then_do
then_do-QuietStep (goes_on x) f h g = g x h
then_do-QuietStep (returned x) f h g = h

pub response_read-Quiet :
    (k : Callbacks) (fd : ℕ) (s : HttpState) (o : Option ResponseParser.Parsed) (x : Exchange)
    → Settled s
    → Quiet x
    → Quiet (response_read k fd s o x).1
unfolding response_read
response_read-Quiet k fd s none x h q = q
response_read-Quiet k fd s (some (false, n, p)) x h q =
    put_state-Quiet fd (record s { response_parser = p }) x h q
response_read-Quiet k fd s (some (true, n, p)) x h q =
    let r = edit_response k fd p.response in
    let s' = record s { response_parser = record p { response = r } } in
    let y = put_state fd s' x in
    let a = replace_buffer-Adds (serialize_http_response r) y q.1 in
    (subst AllSettled (sym a.0) (put_state-Quiet fd s' x h q).0, a.1)
