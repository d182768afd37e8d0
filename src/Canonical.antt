-- ===== src/Canonical.antt =====
-- packages/canonical: the canonical form of a value, the hash tokens and the row hash.
pub mod Json
pub mod Hash
