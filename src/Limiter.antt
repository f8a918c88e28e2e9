-- ===== src/Limiter.antt =====
-- infrastructure/rate_limiter.py: the sliding window of requests, and the limiter over a store.
pub mod Store
pub mod Window
pub mod Laws
pub mod Scenarios
