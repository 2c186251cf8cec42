-- ===== src/Context.antt =====
-- src/context: the correlation id of a request, assigned by one rule wherever a request is given one.
pub mod Correlation
pub mod Store
pub mod Agreement
mod Tests
