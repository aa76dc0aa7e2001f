-- ===== src/Http.antt =====
-- HTTP messages: src/http.
pub mod Handler
pub mod Message
pub mod RequestParser
pub mod Response
pub mod ResponseParser
