-- ===== src/Services.antt =====
-- The services of the bot (bot/src/services/) that stand apart from the control of the nodes.
pub mod Plans
pub mod Access
pub mod Payments
mod Tests
pub mod Trial
