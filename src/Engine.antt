-- ===== src/Engine.antt =====
-- Drift detection (backend/src/deadbolt/engine).
pub mod Scoring
pub mod Tiers
pub mod Drift
