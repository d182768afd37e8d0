-- ===== src/Collector.antt =====
-- The collector of changes: services/cdc-collector (completeness/gtid.ts and handoff.ts).
pub mod GtidSet
pub mod Handoff
