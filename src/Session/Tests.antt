-- ===== src/Session/Tests.antt =====
-- Sessions at concrete values.
use loadbalancer.Base.{◌≡◌, refl, some, [], ◌∷◌, arith, bytes, find}
use loadbalancer.Session.{Sessions, get_session, set_session, cleanup_expired_sessions}
use loadbalancer.Session.Expiry.{get_session-set_session, get_session-cleanup_expired_sessions}

abbrev stored : Sessions
stored =
    (bytes "k", record { backend_host = bytes "a"; backend_port = 80; expires_at = 50 })
    ∷ (bytes "j", record { backend_host = bytes "b"; backend_port = 81; expires_at = 90 })
    ∷ []

get_session-set_session_example :
    get_session (bytes "k") 60 (set_session 10 (bytes "k") (bytes "c") 82 3 40 stored)
    ≡ some (record { backend_host = bytes "c"; backend_port = 82; expires_at = 70 })
get_session-set_session_example =
    get_session-set_session 10 82 3 40 60 (bytes "k") (bytes "c") (bytes "k") stored

get_session-cleanup_expired_sessions_example :
    get_session (bytes "k") 61 (cleanup_expired_sessions 60 stored)
    ≡ get_session (bytes "k") 61 stored
unfolding find
get_session-cleanup_expired_sessions_example =
    get_session-cleanup_expired_sessions 60 61 (bytes "k") stored (refl, (refl, tt)) (omega arith)
