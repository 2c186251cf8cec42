-- ===== src/ServiceToken.antt =====
-- src/service-token: one deployment's bearer token, exchanged for its API key and cached.
pub mod Service
pub mod System
pub mod Flight
pub mod Served
mod Tests
