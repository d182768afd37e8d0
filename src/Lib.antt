-- ===== src/Lib.antt =====
-- External database audit monitor: a verification of its core.
--
-- The program captures the changes of a monitored database and keeps them as evidence. A collector
-- reads the change log and checks with GTID sets that none is missing; events that cannot be
-- processed go to a dead-letter queue; every event is hashed over a canonical form; the evidence
-- writer chains the events of a segment by row hashes and seals it; the segments are stored in a
-- write-once store, linked to each other, signed and anchored; a verifier recomputes all of it.
--
-- The files and the code that they model:
--   Base: shared names, results, lists, texts, maps (a map keeps its keys in the order in which they
--     came, as a JavaScript `Map` does), and `Platform`, what the code takes from the runtime.
--   Canonical: packages/canonical/src/serialize.ts, hash.ts, chain.ts. Canonical/Json has the values
--     and `serializeCanonical`; Canonical/Hash has hash tokens and `rowHash`.
--   Cce: packages/cce-model/src/types.ts; Cce/Core and Cce/Verify are verify.ts, Cce/Order is order.ts
--     with `rowKeyHash` of packages/canonical/src/snapshot.ts.
--   Evidence: packages/evidence/src/types.ts; Evidence/Chain is chain.ts (`verifySegmentChain`),
--     Evidence/CrossSegment is cross-segment.ts (`verifyCrossSegment`), Evidence/Manifest is manifest.ts
--     (`buildSegmentManifest`), Evidence/AnchorPayload is anchor-payload.ts. Evidence/Fixture has test
--     data.
--   Writer: services/evidence-writer/src. Writer/Accumulator is `SegmentAccumulator` of accumulator.ts, on
--     the parts of Writer/Sealing and Writer/Prepared; Writer/Append is `EvidenceWriter` of writer.ts over
--     the store of Worm and the queue of Dlq; Writer/Establish and Writer/Seal are `establishChain` and
--     `SegmentSealer` of sealer.ts; Writer/Service is `EvidenceWriterService` of service.ts, which has the
--     accumulator, the sealer, a signer and an anchor provider behind `ingest` and `sweep`.
--   Worm: infra/worm/src/memory.ts and types.ts. A call takes the store and returns a result or the
--     error that it throws, with the store that it leaves; `run` performs a sequence of calls on the
--     three handles.
--   Signing/KeyRegistry: packages/signing/src/key-registry.ts.
--   Collector/GtidSet: services/cdc-collector/src/completeness/gtid.ts. Collector/Handoff: handoff.ts of
--     the same service.
--   Dlq: infra/dlq/src (types.ts, classify.ts, retry.ts, service.ts, alarms.ts); Dlq/Payload is hash.ts.
--   Anchoring/Cadence and Anchoring/Window: `CadencePolicy` and `UnanchoredWindowMonitor` of
--     services/anchoring/src/retry-cadence.ts; Anchoring/Overdue has what the monitor promises.
--     Anchoring/Token, Anchoring/Request and Anchoring/NoFabrication: types.ts and anchor-service.ts;
--     Anchoring/Record: anchor-record.ts; Anchoring/Identity and Anchoring/Coordinator: the anchor
--     identity, the record store and `AnchorCoordinator` of retry-cadence.ts.
--   Verifier: packages/verifier/src. Verifier/Segments is verify-segments.ts, Verifier/Report is
--     report.ts, verify-continuity.ts is Verifier/Continuity (`recomputeNoMissingSegment`),
--     Verifier/Crossing (`recomputeCrossSegment`; Verifier/Continued describes it without its lookup and
--     its sorting) and Verifier/Events (`recomputeNoMissingEvent`).
--     Verifier/Projection is verify-projection.ts; Verifier/Verify is verify.ts (`verifySegments`,
--     `verify`), where the checks of signatures and anchors are an argument.
--   Audit: the service, the store and the verifier together. Audit/Sealed is what one seal leaves,
--     Audit/Chain the links and numbers of segments against packages/verifier/src/verify-continuity.ts,
--     Audit/Run, Audit/Evidence and Audit/Served what the calls of the service leave.
--
-- Conventions: numbers are natural numbers; the lengths, sequence numbers and counts of the code stay
-- far below the largest safe integer, and the canonical form checks that bound itself. An instant is a
-- text, as in the code, and `Date.parse` is a parameter. SHA-256, NFC, the escaping of JSON and the
-- regular expressions are parameters; nothing is assumed of them but, where a theorem says so, that a
-- digest is 64 hex digits. No loop needs fuel: all are structural on lists; only the decimal form of a
-- number counts its digits down, with more steps than it has digits. The texts of error messages are
-- left out. An asynchronous method is one step, and calls are awaited one after another: the methods
-- of the in-memory store of infra/worm run without an await, but `record` of infra/dlq/src/service.ts
-- awaits a read and then a write, so that its theorems say nothing of calls that overlap. Of the anchor
-- coordinator the awaits are moves, between which others act, a call for a head in flight delivers
-- nothing of its own, since it shares the outcome, and a head is tried as often as the policy allows. SHA-1, the JSON-schema validations and the replies of the
-- anchor providers are parameters as well. Of the evidence writer these are the encoding of texts, the
-- validations of the contracts, the signer, the clocks and the text of an anchor record; its calls come
-- one at a time, and a call that throws keeps what it did before, but for the accumulator, which stays
-- as it was when its own call throws.
--
-- Not modelled: the adapters of databases, of PostgreSQL, of the object store, of the anchor providers
-- and of the hardware signer (input and output); the JSON-schema validation (a library); the
-- verifier's signatures and anchors; the completeness watcher; normalization, export and the proofs of
-- the transparency log; the command line.
pub mod Base
pub mod Canonical
pub mod Cce
pub mod Evidence
pub mod Writer
pub mod Worm
pub mod Signing
pub mod Collector
pub mod Dlq
pub mod Anchoring
pub mod Audit
pub mod Verifier
