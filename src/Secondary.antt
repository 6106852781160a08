-- ===== src/Secondary.antt =====
-- app/secondary-node: what a secondary keeps and does.
pub mod Storage
pub mod MasterSession
pub mod SecondaryNode
pub mod HttpSession
pub mod Main
