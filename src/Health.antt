-- ===== src/Health.antt =====
-- src/health: the readiness and the startup probe.
pub mod Controller
pub mod Module
pub mod Interleaved
pub mod Routes
pub mod Probes
mod Tests
