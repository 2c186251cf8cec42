-- ===== src/Auth.antt =====
-- src/auth: the verification of access tokens, the guard that authenticates every request, and
-- the guard that checks permissions.
pub mod AccessToken
pub mod Guard
pub mod Permission
pub mod Bearer
pub mod Narrow
pub mod Gate
pub mod Module
pub mod Laws
mod Tests
