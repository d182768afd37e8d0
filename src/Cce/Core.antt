-- ===== src/Cce/Core.antt =====
-- A change event without its `evidence`, as the value that is hashed: the object spread and the
-- `delete core.evidence` of packages/cce-model/src/verify.ts, over the fields of types.ts.
use external_database_audit.Base.{ℕ, String, false, Option, none, some, List, [], ◌∷◌, map}
use external_database_audit.Canonical.Json.{
  Json, Items, Members, bool, num, str, arr, obj, nil, cons, end, member,
}
use external_database_audit.Cce.{
  Nullish, undefined, null, value, Operation, FidelityState, SnapshotPhase, AttributionConfidence,
  NormalizedObject, Ddl, CceOffset, SourceConfig, NormalizedFidelity, SnapshotCoverageStatus,
  SnapshotCoverage, NormalizedCompleteness, NormalizedActor, Source, Transaction, CceFieldChange,
  CceChangeItem, CceSchemaVersion, Cce,
}

abbrev pub items : List Json → Items
items [] = nil
items (x ∷ xs) = cons x (items xs)

abbrev pub members : List (String × Json) → Members
members [] = end
members ((k, v) ∷ ms) = member k v (members ms)

abbrev pub object : List (String × Json) → Json
object ms = obj (members ms)

abbrev pub number : ℕ → Json
number n = num false n

abbrev pub texts : List String → Json
texts ss = arr (items (map str ss))

module _ {A : Type 0} (write : A → Json) where
  abbrev pub optional : Option A → Json
  optional none = Json.undefined
  optional (some a) = write a

  abbrev pub nullable : Option A → Json
  nullable none = Json.null
  nullable (some a) = write a

  abbrev nullish : Nullish A → Json
  nullish undefined = Json.undefined
  nullish null = Json.null
  nullish (value a) = write a

abbrev operation_json : Operation → Json
operation_json Operation.insert = str "INSERT"
operation_json Operation.update = str "UPDATE"
operation_json Operation.delete = str "DELETE"
operation_json Operation.ddl = str "DDL"
operation_json Operation.truncate = str "TRUNCATE"

abbrev state_json : FidelityState → Json
state_json FidelityState.healthy = str "HEALTHY"
state_json FidelityState.degraded = str "DEGRADED"
state_json FidelityState.compromised = str "COMPROMISED"

abbrev phase_json : SnapshotPhase → Json
phase_json SnapshotPhase.snapshot = str "snapshot"
phase_json SnapshotPhase.handoff = str "handoff"
phase_json SnapshotPhase.streaming = str "streaming"

abbrev confidence_json : AttributionConfidence → Json
confidence_json AttributionConfidence.exact = str "exact"
confidence_json AttributionConfidence.probable = str "probable"
confidence_json AttributionConfidence.unattributed = str "unattributed"

abbrev status_json : SnapshotCoverageStatus → Json
status_json SnapshotCoverageStatus.in_progress = str "in_progress"
status_json SnapshotCoverageStatus.complete = str "complete"
status_json SnapshotCoverageStatus.interrupted = str "interrupted"
status_json SnapshotCoverageStatus.incomplete = str "incomplete"

abbrev version_json : CceSchemaVersion → Json
version_json CceSchemaVersion.cce_1_0 = str "cce-1.0"
version_json CceSchemaVersion.cce_1_1 = str "cce-1.1"

object_json : NormalizedObject → Json
object_json o = object (
    ("schema", str o.schema)
    ∷ ("name", str o.name)
    ∷ ("primary_key", optional (λ k. k) o.primary_key)
    ∷ [])

ddl_json : Ddl → Json
ddl_json d = object (("statement", str d.statement) ∷ ("effect", optional str d.effect) ∷ [])

offset_json : CceOffset → Json
offset_json o = object (
    ("gtid", nullish str o.gtid)
    ∷ ("binlog_file", nullish str o.binlog_file)
    ∷ ("binlog_pos", nullish number o.binlog_pos)
    ∷ ("lsn", nullish str o.lsn)
    ∷ ("scn", nullish str o.scn)
    ∷ ("resume_token", nullish str o.resume_token)
    ∷ [])

config_json : SourceConfig → Json
config_json c = object (
    ("binlog_format", nullable str c.binlog_format)
    ∷ ("binlog_row_image", nullable str c.binlog_row_image)
    ∷ ("gtid_mode", nullable str c.gtid_mode)
    ∷ ("replica_identity", nullable str c.replica_identity)
    ∷ ("log_bin", nullable str c.log_bin)
    ∷ ("config_snapshot_id", str c.config_snapshot_id)
    ∷ [])

fidelity_json : NormalizedFidelity → Json
fidelity_json f = object (
    ("state", state_json f.state)
    ∷ ("source_config", config_json f.source_config)
    ∷ ("notes", optional texts f.notes)
    ∷ ("degraded_reason", nullish str f.degraded_reason)
    ∷ [])

coverage_json : SnapshotCoverage → Json
coverage_json c = object (
    ("epoch_id", optional str c.epoch_id)
    ∷ ("table", optional str c.table)
    ∷ ("expected_rows", nullish number c.expected_rows)
    ∷ ("expected_is_estimate", optional bool c.expected_is_estimate)
    ∷ ("emitted_rows", optional number c.emitted_rows)
    ∷ ("status", status_json c.status)
    ∷ [])

completeness_json : NormalizedCompleteness → Json
completeness_json c = object (
    ("consumed_offset_key", str c.consumed_offset_key)
    ∷ ("consumed_gtid_set", optional str c.consumed_gtid_set)
    ∷ ("heartbeat_ts", optional str c.heartbeat_ts)
    ∷ ("gap_detected", bool c.gap_detected)
    ∷ ("snapshot_phase", optional phase_json c.snapshot_phase)
    ∷ ("snapshot_epoch_id", optional str c.snapshot_epoch_id)
    ∷ ("snapshot_coverage", optional coverage_json c.snapshot_coverage)
    ∷ [])

actor_json : NormalizedActor → Json
actor_json a = object (
    ("db_user", nullish str a.db_user)
    ∷ ("client_host", nullish str a.client_host)
    ∷ ("connection_id", nullish str a.connection_id)
    ∷ ("application_name", nullish str a.application_name)
    ∷ ("attribution_confidence", confidence_json a.attribution_confidence)
    ∷ ("audit_event_ref", optional str a.audit_event_ref)
    ∷ ("correlation_basis", optional texts a.correlation_basis)
    ∷ [])

source_json : Source → Json
source_json s = object (
    ("db_id", str s.db_id)
    ∷ ("engine", str s.engine)
    ∷ ("server_uuid", str s.server_uuid)
    ∷ ("schema", str s.schema)
    ∷ ("engine_version", optional str s.engine_version)
    ∷ [])

transaction_json : Transaction → Json
transaction_json t = object (
    ("tx_id", str t.tx_id)
    ∷ ("commit_ts", str t.commit_ts)
    ∷ ("ingest_ts", str t.ingest_ts)
    ∷ ("statement_count", number t.statement_count)
    ∷ [])

field_change_json : CceFieldChange → Json
field_change_json f = object (
    ("path", texts f.path)
    ∷ ("old", f.old)
    ∷ ("new", f.new)
    ∷ ("data_type", str f.data_type)
    ∷ ("changed", bool f.changed)
    ∷ ("sensitive", bool f.sensitive)
    ∷ ("masked", optional bool f.masked)
    ∷ [])

change_json : CceChangeItem → Json
change_json c = object (
    ("seq", number c.seq)
    ∷ ("operation", operation_json c.operation)
    ∷ ("object", object_json c.object)
    ∷ ("before", optional (λ r. r) c.before)
    ∷ ("after", optional (λ r. r) c.after)
    ∷ ("field_changes", optional (λ fs. arr (items (map field_change_json fs))) c.field_changes)
    ∷ ("ddl", optional ddl_json c.ddl)
    ∷ [])

unfoldable pub core_members : Cce → List (String × Json)
unfolding object_json ddl_json offset_json config_json fidelity_json coverage_json completeness_json
    actor_json source_json transaction_json field_change_json change_json
core_members c =
    ("schema_version", version_json c.schema_version)
    ∷ ("envelope_id", str c.envelope_id)
    ∷ ("kind", str "transaction")
    ∷ ("source", source_json c.source)
    ∷ ("transaction", transaction_json c.transaction)
    ∷ ("offset", offset_json c.offset)
    ∷ ("fidelity", fidelity_json c.fidelity)
    ∷ ("completeness", completeness_json c.completeness)
    ∷ ("actor", actor_json c.actor)
    ∷ ("changes", arr (items (map change_json c.changes)))
    ∷ []

unfoldable pub core_json : Cce → Json
unfolding core_members
core_json c = object (core_members c)
