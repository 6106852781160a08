-- ===== src/Master.antt =====
-- app/master-node: the master.
pub mod Storage
pub mod AddMessageRequest
pub mod MasterNode
pub mod HttpSession
pub mod Main
