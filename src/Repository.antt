-- ===== src/Repository.antt =====
-- src/repository
pub mod Scope
pub mod Base
pub mod Isolation
pub mod Builder
pub mod Tenancy
pub mod Partition
mod Tests
