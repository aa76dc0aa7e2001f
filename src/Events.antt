-- ===== src/Events.antt =====
-- src/core/event_handlers.cpp.
pub mod State
pub mod Client
pub mod Backend
pub mod Wiring
pub mod Stalled
mod Tests
