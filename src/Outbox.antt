-- ===== src/Outbox.antt =====
-- src/outbox
pub mod Event
pub mod Retry
pub mod Repository
pub mod Processor
pub mod System
pub mod Draining
mod Tests
