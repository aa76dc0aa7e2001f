-- ===== src/Admission.antt =====
-- The admission of clients in src/core/load_balancer.cpp: addresses, rates, limits and the queue.
pub mod Config
pub mod Addresses
pub mod RateLimit
pub mod Accept
