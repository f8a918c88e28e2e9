-- ===== src/Work/Mutation/Laws.antt =====
-- What the effect changes in the tree, what a write that breaks off leaves, and that the rollback of the
-- effect undoes it.
pub mod Entries
pub mod Editing
pub mod Allowing
pub mod Effects
pub mod Breaking
pub mod Undoing
pub mod Serving
