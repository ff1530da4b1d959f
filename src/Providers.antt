-- ===== src/Providers.antt =====
-- Providers (backend/src/deadbolt/providers).
pub mod Fixture
pub mod Workday
