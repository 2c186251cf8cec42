-- ===== src/Exception.antt =====
-- src/exception and src/observability/route-pattern.util.ts: how a thrown value becomes a response,
-- a log line and, if it is the server's fault, a report.
pub mod Value
pub mod Route
pub mod Normalize
pub mod Filter
pub mod Catalogue
pub mod Paths
pub mod Laws
mod Tests
