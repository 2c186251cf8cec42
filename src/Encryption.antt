-- ===== src/Encryption.antt =====
-- src/encryption: envelope encryption of the secrets that a service stores.
pub mod Crypto
pub mod Service
pub mod Envelope
mod Tests
