-- ===== src/Verifier.antt =====
-- packages/verifier: what an independent verifier recomputes.
pub mod Segments
pub mod Bound
pub mod Accepts
pub mod Report
pub mod Continuity
pub mod Grouping
pub mod Complete
pub mod Events
pub mod Crossing
pub mod Continued
pub mod Projection
pub mod Verify
pub mod Attested
mod Tests
