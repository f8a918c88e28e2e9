-- ===== src/Work/Rules.antt =====
-- Proof rules for the actions of a session.
pub mod Keeps
pub mod Atomic
pub mod Returns
pub mod Reads
