-- ===== src/Work.antt =====
-- application/work_graph.py: the transactional work graph.
pub mod Rows
pub mod Session
pub mod Events
pub mod Authority
pub mod Lifecycle
pub mod Claims
pub mod Approvals
pub mod Effects
pub mod Apply
pub mod Verify
pub mod Close
pub mod Reconcile
pub mod Rollback
pub mod Rules
pub mod Logs
pub mod Requests
pub mod Atomicity
pub mod Laws
pub mod Mutation
pub mod Scenarios
