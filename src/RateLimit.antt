-- ===== src/RateLimit.antt =====
-- src/rate-limit
pub mod Bucket
pub mod Key
pub mod Service
pub mod Shared
mod Tests
