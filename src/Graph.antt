-- ===== src/Graph.antt =====
-- The access graph (backend/src/deadbolt/graph).
pub mod Identity
pub mod Store
pub mod Snapshot
pub mod Capture
