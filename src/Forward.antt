-- ===== src/Forward.antt =====
-- Forwarding: src/core/data_forwarder.cpp and http_data_forwarder.cpp, and what it tells the rest of the program.
pub mod Effect
pub mod Buffered
pub mod Http
