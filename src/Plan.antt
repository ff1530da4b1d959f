-- ===== src/Plan.antt =====
-- Deterministic action plans (backend/src/deadbolt/plan).
pub mod Canonical
pub mod Builder
