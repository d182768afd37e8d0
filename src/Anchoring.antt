-- ===== src/Anchoring.antt =====
-- services/anchoring: the requests to providers, the cadence of anchoring and the watch over what is
-- not anchored yet.
pub mod Token
pub mod Request
pub mod NoFabrication
pub mod Record
pub mod Identity
pub mod Cadence
pub mod Coordinator
pub mod Window
pub mod Overdue
mod Tests
