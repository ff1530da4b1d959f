-- ===== src/Executor.antt =====
-- The executor (backend/src/deadbolt/executor).
pub mod Idempotency
pub mod State
pub mod Snapshots
pub mod Execute
pub mod Rollback
