-- ===== src/Work/Logs.antt =====
-- The two logs of the work graph, receipts and events: what every row that a method writes there
-- satisfies, and what follows for the logs.
pub mod Rows
pub mod Writers
pub mod Leases
pub mod Checks
pub mod Outcomes
pub mod Reconciling
pub mod Effects
pub mod Undoing
pub mod History
