-- ===== src/Knowledge/Laws.antt =====
-- What the knowledge ledger guarantees, over any run of its methods.
pub mod Checks
pub mod Tables
pub mod Steps
pub mod Copies
pub mod Approving
pub mod Keeping
pub mod Performing
pub mod Tracking
pub mod Heads
pub mod Running
pub mod Publishing
pub mod Projecting
