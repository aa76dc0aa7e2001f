-- ===== src/Session/Expiry.antt =====
-- The methods of src/core/session_manager.cpp, one after another.
use loadbalancer.Base.{
  ℕ, ◌+◌, ◌*◌, ◌≤◌, ◌≡◌, refl, ◌∙◌, subst, none, some, [], ◌∷◌, arith, Text, leb, leb→le, le→leb,
  text_eq, text_eq_iff, find, find-assign, find-erase, text_keys, if◌then◌else◌, Bool-cases, inl,
  inr,
}
use loadbalancer.Session.{
  SessionInfo, Sessions, unexpired, get_session, set_session, clear_session,
  cleanup_expired_sessions,
}

-- The session that is set for a key is found until its time has run out and not from then on, and
-- the other keys are found as before.
pub get_session-set_session :
    (ticks port ttl now later : ℕ) (key host other : Text) (m : Sessions)
    → get_session other later (set_session ticks key host port ttl now m) ≡ (
        if text_eq key other
        then (if leb (now + ttl * ticks) later
            then none
            else some (record {
              backend_host = host;
              backend_port = port;
              expires_at = now + ttl * ticks;
            }))
        else get_session other later m)
unfolding get_session set_session unexpired
get_session-set_session ticks port ttl now later key host other m =
    rw
      (find-assign key other
        (record { backend_host = host; backend_port = port; expires_at = now + ttl * ticks }) m)
      (elim (Bool-cases (text_eq key other)) [ inl e ↦ rw e | inr e ↦ rw e ])

-- Each key stands once, as in `std::unordered_map`.
abbrev pub Distinct : Sessions → Type 0
Distinct [] = Unit {0}
Distinct ((k, s) ∷ m) = (find k m ≡ none) × Distinct m

unexpired-over :
    (later : ℕ) (s : SessionInfo) → s.expires_at ≤ later → unexpired later (some s) ≡ none
unfolding unexpired
unexpired-over later s h = rw (le→leb _ _ h)

-- The sweep changes no answer, from its own time on.
pub get_session-cleanup_expired_sessions :
    (now later : ℕ) (key : Text) (m : Sessions)
    → Distinct m
    → now ≤ later
    → get_session key later (cleanup_expired_sessions now m) ≡ get_session key later m
unfolding get_session cleanup_expired_sessions find unexpired
get_session-cleanup_expired_sessions now later key [] d h = refl
get_session-cleanup_expired_sessions now later key ((k, s) ∷ m) d h =
    let ih = get_session-cleanup_expired_sessions now later key m d.1 h in
    elim (Bool-cases (leb s.expires_at now)) [
      | inr live ↦ rw live (elim (Bool-cases (text_eq k key)) [ inl e ↦ rw e | inr e ↦ rw e ih ])
      | inl over ↦ rw over (
          ih ∙ elim (Bool-cases (text_eq k key)) [
            | inl e ↦ rw e (absent ((text_eq_iff k key).0 e) (leb→le _ _ over))
            | inr e ↦ rw e
          ])
    ]
  where
    absent : k ≡ key → s.expires_at ≤ now → get_session key later m ≡ unexpired later (some s)
    absent e over =
        rw (unexpired-over later s (omega arith))
          (subst (λ (j : Text). get_session j later m ≡ none) e (rw d.0))

-- A key that is cleared is not found, and the others are found as before.
pub get_session-clear_session :
    (key other : Text) (now : ℕ) (m : Sessions)
    → get_session other now (clear_session key m)
      ≡ (if text_eq key other then none else get_session other now m)
unfolding get_session clear_session unexpired
get_session-clear_session key other now m =
    rw (find-erase key other m)
      (elim (Bool-cases (text_eq key other)) [ inl e ↦ rw e | inr e ↦ rw e ])
