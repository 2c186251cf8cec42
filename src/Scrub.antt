-- ===== src/Scrub.antt =====
-- src/observability/error/scrub-event.util.ts: what leaves the process in an error report.
pub mod Event
pub mod Clean
pub mod Report
mod Tests
