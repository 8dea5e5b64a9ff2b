-- ===== src/Operation.antt =====
-- Live-configuration operation plans (src/operation.rs) and their validation by an application's
-- adapter (src/adapter.rs).
pub mod Digest
pub mod Plan
mod Examples
pub mod Validation
pub mod Acceptance
pub mod Decode
