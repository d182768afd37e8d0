-- ===== src/Writer.antt =====
-- services/evidence-writer: the accumulator of segments and the chain that the sealer establishes.
pub mod Sealing
pub mod Prepared
pub mod Accumulator
pub mod Establish
pub mod Append
pub mod Seal
pub mod Service
