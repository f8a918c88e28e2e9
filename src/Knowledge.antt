-- ===== src/Knowledge.antt =====
-- context_vault/knowledge.py: the versioned knowledge of a project, and who may change it.
pub mod Records
pub mod Revision
pub mod Ledger
pub mod Lifecycle
pub mod Approval
pub mod Runs
pub mod Laws
pub mod Scenarios
