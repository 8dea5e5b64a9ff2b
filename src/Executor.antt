-- ===== src/Executor.antt =====
-- The executor of operation plans over host-owned resources (src/executor.rs).
pub mod Host
pub mod Types
pub mod Prepare
pub mod Rollback
pub mod Run
pub mod Receipt
pub mod Restore
pub mod Recovery
pub mod Ordered
pub mod Preflight
pub mod Observe
pub mod Apply
pub mod Commit
pub mod Atomic
pub mod Transaction
pub mod Success
pub mod Undo
pub mod Plans
pub mod Coalesce
pub mod Memory
mod Examples
