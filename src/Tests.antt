-- ===== src/Tests.antt =====
-- Concrete inputs, and the theorems of the other modules at them.
pub mod Fixtures
pub mod Scores
pub mod Plans
pub mod Approval
pub mod Negotiation
pub mod Runs
pub mod Restoring
pub mod Providers
pub mod Auditing
pub mod Linking
pub mod Buttons
pub mod Storing
pub mod Snapshots
pub mod Captures
pub mod Tokens
pub mod Cards
pub mod Workers
