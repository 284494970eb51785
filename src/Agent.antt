-- ===== src/Agent.antt =====
-- The node's agent: agent/app/.
pub mod Client
pub mod ConnLimit
pub mod Loop
pub mod Xray
pub mod Cascade
pub mod Node
pub mod Reconcile
mod Tests
