-- ===== src/Signing.antt =====
-- The keys that sign evidence: packages/signing (key-registry.ts).
pub mod KeyRegistry
