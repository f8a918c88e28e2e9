-- ===== src/Work/Laws.antt =====
-- What single methods of the work graph guarantee.
pub mod Heartbeat
pub mod Manifests
pub mod Prepared
pub mod Approving
pub mod Settling
pub mod Replaying
pub mod Admitting
pub mod Completing
pub mod Evidence
pub mod Closing
pub mod Acquiring
pub mod Leasing
pub mod Trusting
pub mod Entitling
pub mod Granting
