-- ===== src/Audit.antt =====
-- The writer, the store and the verifier together.
pub mod Sealed
pub mod Chain
pub mod Run
pub mod Evidence
pub mod Served
mod Tests
