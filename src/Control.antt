-- ===== src/Control.antt =====
-- The control plane of the bot: bot/src/control/, with the parts of bot/src/services/ that build
-- the desired state of a node.
pub mod Db
pub mod Cascade
pub mod Desired
pub mod State
pub mod Router
pub mod Auth
pub mod Consistency
pub mod NodeService
pub mod Sample
mod Tests
