-- ===== src/Writer/Append.antt =====
-- services/evidence-writer/src/writer.ts: validating an object and appending it to the write-once store,
-- or recording it in the dead-letter queue. The `TextEncoder`, the validations of the contracts and the
-- texts of the errors are the fields of `WriterDeps`; a validation returns the texts of its errors, or
-- throws. An object that is neither an event nor a snapshot manifest is any other value.
pub mod Sound
pub mod Outcome
use external_database_audit.Base.{
  ℕ, String, Bool, true, false, not, ◌||◌, ◌&&◌, Option, none, some, List, [], ◌∷◌, ◌++◌, str_eq,
  if◌then◌else◌,
}
use external_database_audit.Base.Platform.{Platform}
use external_database_audit.Base.Result.{Result, ok, err, ◌>>=◌}
use external_database_audit.Base.Text.{join, ◌+++◌}
use external_database_audit.Canonical.Hash.{is_hash_token}
use external_database_audit.Canonical.Json.{Json, CanonicalError, str, serialize_canonical}
use external_database_audit.Cce.{Cce, CceEvidence}
use external_database_audit.Cce.Core.{object, nullable, core_members}
use external_database_audit.Cce.Verify.{HashVerification, verify_cce}
use external_database_audit.Dlq.{
  Dlq, DlqItem, FailureCategory, schema_validation_failure, serialization_failure,
  unexpected_exception, Thrown, error, record_failure,
}
use external_database_audit.Dlq.Payload.{Runtime}
use external_database_audit.Worm.{Store, WormError, compliance, put_immutable}
use external_database_audit.Writer.Sealing.{evidence_object_key}

pub record SnapshotEpochManifest : Type 0 where
  pub epoch_id : String
  pub db_id : String
  pub fields : Json

pub data AppendableObject : Type 0 where
  cce : Cce → AppendableObject
  snapshot_epoch_manifest : SnapshotEpochManifest → AppendableObject
  unrecognized : Json → AppendableObject

pub record EvidencePlacement : Type 0 where
  pub segment_id : String
  pub seq : ℕ

pub record WriterDeps : Type 0 where
  pub js : Platform
  pub rt : Runtime
  pub max_retries : ℕ
  pub encode : String → List ℕ
  pub validate_cce_full : Cce → Result CanonicalError (List String)
  pub validate_snapshot_epoch_manifest : Json → Result CanonicalError (List String)
  pub canonical_message : CanonicalError → String
  pub worm_message : WormError → String

-- what `EvidenceWriter` writes to
pub record Sinks : Type 0 where
  pub worm : Store
  pub dlq : Dlq

pub record ObjectDescriptor : Type 0 where
  pub type : String
  pub object_id : String
  pub db_id : String
  pub engine : String

unfoldable pub describe : AppendableObject → Option ObjectDescriptor
describe (cce c) = some (record {
  type = "cce";
  object_id = c.envelope_id;
  db_id = c.source.db_id;
  engine = c.source.engine;
})
describe (snapshot_epoch_manifest m) = some (record {
  type = "snapshot_epoch_manifest";
  object_id = m.epoch_id;
  db_id = m.db_id;
  engine = "unknown";
})
describe (unrecognized v) = none

-- the references that `withBackRefs` sets
abbrev pub BackRefs : Type 0
BackRefs = List (String × Json)

abbrev pub back_refs : String → String → BackRefs
back_refs key segment_id = ("worm_object_key", str key) ∷ ("segment_id", str segment_id) ∷ []

abbrev evidence_json : CceEvidence → BackRefs → Json
evidence_json e refs = object (
    ("event_hash", str e.event_hash)
    ∷ ("prev_row_hash", nullable str e.prev_row_hash)
    ∷ ("row_hash", str e.row_hash)
    ∷ refs)

unfoldable pub cce_json : Cce → BackRefs → Json
cce_json c refs = object (core_members c ++ ("evidence", evidence_json c.evidence refs) ∷ [])

-- an object as a value, with the references of a placement or with none
unfoldable pub object_json : AppendableObject → BackRefs → Json
unfolding cce_json
object_json (cce c) refs = cce_json c refs
object_json (snapshot_epoch_manifest m) refs = m.fields
object_json (unrecognized v) refs = v

pub record Refused : Type 0 where
  pub category : FailureCategory
  pub reason : String
  pub engine : String
  pub offset : Option String
  pub thrown : Option Thrown

pub record Ready : Type 0 where
  pub worm_object_key : String
  pub bytes : List ℕ
  pub to_write : Json
  pub descriptor : ObjectDescriptor

-- `desc.objectId || null`
abbrev pub id_or_null : String → Option String
id_or_null id = if str_eq id "" then none else some id

abbrev pub invalid : ObjectDescriptor → String → Result Refused Ready
invalid desc reason = err (record {
  category = schema_validation_failure;
  reason = reason;
  engine = desc.engine;
  offset = id_or_null desc.object_id;
  thrown = none;
})

-- the reason why the evidence of an event is not well formed
unfoldable pub cce_evidence_present : CceEvidence → Option String
cce_evidence_present e =
    if not (is_hash_token e.event_hash)
    then some "CCE missing/invalid evidence.event_hash"
    else if not (is_hash_token e.row_hash)
    then some "CCE missing/invalid evidence.row_hash"
    else none

abbrev bool_text : Bool → String
bool_text true = "true"
bool_text false = "false"

abbrev pub unverified : HashVerification → Option String
unverified v =
    if not v.event_hash_ok || not v.row_hash_ok
    then some (
        "CCE evidence does not verify (event_hash_ok="
        +++ bool_text v.event_hash_ok
        +++ ", row_hash_ok="
        +++ bool_text v.row_hash_ok
        +++ ")")
    else none

module _ (d : WriterDeps) where
  unfoldable pub validated : AppendableObject → Result CanonicalError (List String)
  validated (cce c) = d.validate_cce_full c
  validated (snapshot_epoch_manifest m) = d.validate_snapshot_epoch_manifest m.fields
  validated (unrecognized v) = ok []

  abbrev pub on_presence : Cce → Option String → Result CanonicalError (Option String)
  on_presence c (some reason) = ok (some reason)
  on_presence c none = do v ← verify_cce d.js c; ok (unverified v)

  -- the reason why the evidence of an object does not hold, if it has to
  unfoldable pub evidence_problem : AppendableObject → Result CanonicalError (Option String)
  unfolding cce_evidence_present
  evidence_problem (cce c) = on_presence c (cce_evidence_present c.evidence)
  evidence_problem (snapshot_epoch_manifest m) = ok none
  evidence_problem (unrecognized v) = ok none

  -- the object is serialized with its references
  unfoldable pub serialized :
      AppendableObject
      → ObjectDescriptor
      → EvidencePlacement
      → Result CanonicalError (Result Refused Ready)
  unfolding object_json
  serialized o desc place = do
    let key = evidence_object_key desc.db_id place.segment_id place.seq desc.type
    let value = object_json o (back_refs key place.segment_id)
    text ← serialize_canonical d.js value
    ok (
        ok (record {
          worm_object_key = key;
          bytes = d.encode text;
          to_write = value;
          descriptor = desc;
        }))

  abbrev pub on_evidence :
      AppendableObject
      → ObjectDescriptor
      → EvidencePlacement
      → Option String
      → Result CanonicalError (Result Refused Ready)
  on_evidence o desc place (some reason) = ok (invalid desc reason)
  on_evidence o desc place none = serialized o desc place

  abbrev pub on_errors :
      AppendableObject
      → ObjectDescriptor
      → EvidencePlacement
      → List String
      → Result CanonicalError (Result Refused Ready)
  on_errors o desc place (e ∷ es) = ok (
      invalid desc
        ("evidence object failed " +++ desc.type +++ " validation: " +++ join ", " (e ∷ es)))
  on_errors o desc place [] = evidence_problem o >>= on_evidence o desc place

  -- the body of the `try` of `prepare`, for an object that is recognized
  unfoldable pub prepare_described :
      AppendableObject
      → ObjectDescriptor
      → EvidencePlacement
      → Result CanonicalError (Result Refused Ready)
  unfolding validated evidence_problem serialized
  prepare_described o desc place = validated o >>= on_errors o desc place

  abbrev pub caught :
      ObjectDescriptor → Result CanonicalError (Result Refused Ready) → Result Refused Ready
  caught desc (ok prepared) = prepared
  caught desc (err e) = err (record {
    category = serialization_failure;
    reason = "serialization failed: " +++ d.canonical_message e;
    engine = desc.engine;
    offset = some desc.object_id;
    thrown = some (error false (d.canonical_message e));
  })

  unfoldable pub prepare : AppendableObject → EvidencePlacement → Result Refused Ready
  unfolding describe prepare_described
  prepare o place = elim (describe o) [
    | none ↦ err (record {
      category = schema_validation_failure;
      reason = "unrecognized evidence object kind (not a CCE or snapshot_epoch_manifest)";
      engine = "unknown";
      offset = none;
      thrown = none;
    })
    | some desc ↦ caught desc (prepare_described o desc place)
  ]

-- `AppendResult`, with the value that was written
pub record Appended : Type 0 where
  pub worm_object_key : String
  pub segment_id : String
  pub object_id : String
  pub object_type : String
  pub object : Json

pub data AppendOutcome : Type 0 where
  written : Appended → AppendOutcome
  to_dead_letters : DlqItem → (reason : String) → AppendOutcome

-- what the clocks of the writer and of the queue tell
pub record Clock : Type 0 where
  pub captured_at : String
  pub recorded_at : String

module _ (d : WriterDeps) where
  unfoldable pub to_dlq : AppendableObject → Refused → Clock → Sinks → AppendOutcome × Sinks
  unfolding object_json
  to_dlq o f clock s =
      let (item, queue) =
        record_failure d.js d.rt d.max_retries
          (
            record {
              engine = some f.engine;
              offset = f.offset;
              payload = object_json o [];
              thrown = f.thrown;
              category = some f.category;
              is_retryable = none;
              reason = some f.reason;
              captured_at = some clock.captured_at;
            },
            clock.recorded_at,
          )
          s.dlq in
      (to_dead_letters item f.reason, record s { dlq = queue })

  unfoldable pub write_ready :
      AppendableObject
      → EvidencePlacement
      → Ready
      → Clock
      → Result WormError (Unit {0}) × Store
      → Sinks
      → AppendOutcome × Sinks
  unfolding to_dlq
  write_ready o place r clock (ok u, worm) s = (
    written (record {
      worm_object_key = r.worm_object_key;
      segment_id = place.segment_id;
      object_id = r.descriptor.object_id;
      object_type = r.descriptor.type;
      object = r.to_write;
    }),
    record s { worm = worm },
  )
  write_ready o place r clock (err e, worm) s =
      to_dlq o
        (record {
          category = unexpected_exception;
          reason = "WORM write failed for \"" +++ r.worm_object_key +++ "\": " +++ d.worm_message e;
          engine = r.descriptor.engine;
          offset = id_or_null r.descriptor.object_id;
          thrown = some (error false (d.worm_message e));
        })
        clock (record s { worm = worm })

  unfoldable pub append_prepared :
      AppendableObject
      → EvidencePlacement
      → Clock
      → Sinks
      → Result Refused Ready
      → AppendOutcome × Sinks
  unfolding to_dlq write_ready
  append_prepared o place clock s (err f) = to_dlq o f clock s
  append_prepared o place clock s (ok r) =
      write_ready o place r clock (put_immutable r.worm_object_key r.bytes compliance s.worm) s

  unfoldable pub append :
      AppendableObject → EvidencePlacement → Clock → Sinks → AppendOutcome × Sinks
  unfolding prepare append_prepared put_immutable
  append o place clock s = append_prepared o place clock s (prepare d o place)
