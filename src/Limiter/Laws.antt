-- ===== src/Limiter/Laws.antt =====
-- What a sliding window guarantees.
pub mod Hits
pub mod Sliding
pub mod Requests
