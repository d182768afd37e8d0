-- ===== src/Cce.antt =====
-- packages/cce-model: the change event (types.ts) and the recomputation of its hashes (verify.ts).
pub mod Core
pub mod Verify
pub mod Order
use external_database_audit.Base.{ℕ, String, Bool, Option, List}
use external_database_audit.Canonical.Json.{Json}

-- an optional field that may also be null
pub data Nullish (A : Type 0) : Type 0 where
  undefined null : Nullish A
  value : A → Nullish A

pub data Operation : Type 0 where
  insert update delete ddl truncate : Operation

pub data FidelityState : Type 0 where
  healthy degraded compromised : FidelityState

pub data SnapshotPhase : Type 0 where
  snapshot handoff streaming : SnapshotPhase

pub data AttributionConfidence : Type 0 where
  exact probable unattributed : AttributionConfidence

-- An image of a row and a primary key are values of `Json`: objects with any values, or null.
pub record NormalizedObject : Type 0 where
  pub schema : String
  pub name : String
  pub primary_key : Option Json

pub record Ddl : Type 0 where
  pub statement : String
  pub effect : Option String

pub record CceOffset : Type 0 where
  pub gtid : Nullish String
  pub binlog_file : Nullish String
  pub binlog_pos : Nullish ℕ
  pub lsn : Nullish String
  pub scn : Nullish String
  pub resume_token : Nullish String

pub record SourceConfig : Type 0 where
  pub binlog_format : Option String
  pub binlog_row_image : Option String
  pub gtid_mode : Option String
  pub replica_identity : Option String
  pub log_bin : Option String
  pub config_snapshot_id : String

pub record NormalizedFidelity : Type 0 where
  pub state : FidelityState
  pub source_config : SourceConfig
  pub notes : Option (List String)
  pub degraded_reason : Nullish String

pub data SnapshotCoverageStatus : Type 0 where
  in_progress complete interrupted incomplete : SnapshotCoverageStatus

pub record SnapshotCoverage : Type 0 where
  pub epoch_id : Option String
  pub table : Option String
  pub expected_rows : Nullish ℕ
  pub expected_is_estimate : Option Bool
  pub emitted_rows : Option ℕ
  pub status : SnapshotCoverageStatus

pub record NormalizedCompleteness : Type 0 where
  pub consumed_offset_key : String
  pub consumed_gtid_set : Option String
  pub heartbeat_ts : Option String
  pub gap_detected : Bool
  pub snapshot_phase : Option SnapshotPhase
  pub snapshot_epoch_id : Option String
  pub snapshot_coverage : Option SnapshotCoverage

pub record NormalizedActor : Type 0 where
  pub db_user : Nullish String
  pub client_host : Nullish String
  pub connection_id : Nullish String
  pub application_name : Nullish String
  pub attribution_confidence : AttributionConfidence
  pub audit_event_ref : Option String
  pub correlation_basis : Option (List String)

pub record Source : Type 0 where
  pub db_id : String
  pub engine : String
  pub server_uuid : String
  pub schema : String
  pub engine_version : Option String

pub record Transaction : Type 0 where
  pub tx_id : String
  pub commit_ts : String
  pub ingest_ts : String
  pub statement_count : ℕ

pub record CceFieldChange : Type 0 where
  pub path : List String
  pub old : Json
  pub new : Json
  pub data_type : String
  pub changed : Bool
  pub sensitive : Bool
  pub masked : Option Bool

pub record CceChangeItem : Type 0 where
  pub seq : ℕ
  pub operation : Operation
  pub object : NormalizedObject
  pub before : Option Json
  pub after : Option Json
  pub field_changes : Option (List CceFieldChange)
  pub ddl : Option Ddl

pub record CceEvidence : Type 0 where
  pub event_hash : String
  pub prev_row_hash : Option String
  pub row_hash : String

pub data CceSchemaVersion : Type 0 where
  cce_1_0 cce_1_1 : CceSchemaVersion

pub record Cce : Type 0 where
  pub schema_version : CceSchemaVersion
  pub envelope_id : String
  pub source : Source
  pub transaction : Transaction
  pub offset : CceOffset
  pub fidelity : NormalizedFidelity
  pub completeness : NormalizedCompleteness
  pub actor : NormalizedActor
  pub changes : List CceChangeItem
  pub evidence : CceEvidence
