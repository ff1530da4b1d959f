-- ===== src/Audit.antt =====
-- The audit log (backend/src/deadbolt/audit).
pub mod Config
pub mod Safe
pub mod Chain
pub mod Writer
pub mod Tamper
pub mod Redaction
