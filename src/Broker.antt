-- ===== src/Broker.antt =====
-- The approval of an action (backend/src/deadbolt/broker).
pub mod StateMachine
pub mod Negotiate
pub mod Callback
pub mod Card
