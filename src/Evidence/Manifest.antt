-- ===== src/Evidence/Manifest.antt =====
-- packages/evidence/src/manifest.ts: the manifest of a segment. The text of a problem is left out, and
-- `validate` is the JSON-schema validation of @edam/contracts, done by a library. Copies and freezing
-- are left out: the model's values are not shared.
pub mod Exact
pub mod Built
use external_database_audit.Base.{
  ℕ, zero, suc, ◌+◌, ◌-◌, String, Bool, true, false, not, ◌&&◌, Option, none, some, List, [], ◌∷◌,
  ◌++◌, map, str_eq, ltb, ◌==◌, if◌then◌else◌,
}
use external_database_audit.Base.Lists.{get_elem?, length}
use external_database_audit.Base.Platform.{Platform}
use external_database_audit.Base.Result.{Result, ok, err, reject_if, ◌>>=◌, ◌>>◌}
use external_database_audit.Canonical.Hash.{hash_value}
use external_database_audit.Canonical.Json.{Json, CanonicalError, str, bool, arr}
use external_database_audit.Cce.{Cce}
use external_database_audit.Cce.Core.{items, object, number, texts, optional, nullable}
use external_database_audit.Evidence.{
  SegmentObjectRef, SegmentObjectHash, SegmentOffsetRange, SegmentFidelitySummary,
  SegmentCompletenessSummary, PreviousSegmentRef, ManifestCore, SegmentManifest, SegmentInput,
}

pub data ManifestProblem : Type 0 where
  empty_segment event_count hash_list_length objects_length : ManifestProblem
  ref_seq hash_missing hash_seq object_missing : ℕ → ManifestProblem
  object_id event_hash row_hash : ℕ → ManifestProblem
  first_envelope_id last_envelope_id first_row_hash last_row_hash : ManifestProblem

pub data ManifestError : Type 0 where
  inconsistent : List ManifestProblem → ManifestError
  genesis_with_previous previous_required invalid_manifest : ManifestError
  not_canonical : CanonicalError → ManifestError

-- `if (!test) problems.push(problem)`
abbrev pub unless : Bool → ManifestProblem → List ManifestProblem
unless true problem = []
unless false problem = problem ∷ []

abbrev pub hash_problems : ℕ → Option SegmentObjectHash → List ManifestProblem
hash_problems i none = hash_missing i ∷ []
hash_problems i (some h) = unless (h.seq == i) (hash_seq i)

-- the hashes are compared only where the entry is there
abbrev pub evidence_problems : ℕ → Option SegmentObjectHash → Cce → List ManifestProblem
evidence_problems i none c = []
evidence_problems i (some h) c =
    unless (str_eq h.event_hash c.evidence.event_hash) (event_hash i)
    ++ unless (str_eq h.row_hash c.evidence.row_hash) (row_hash i)

abbrev pub object_problems :
    ℕ → SegmentObjectRef → Option SegmentObjectHash → Option Cce → List ManifestProblem
object_problems i r h none = object_missing i ∷ []
object_problems i r h (some c) =
    unless (str_eq r.object_id c.envelope_id) (object_id i) ++ evidence_problems i h c

-- one round of the loop of `crossCheck`
unfoldable pub entry_problems :
    ℕ → SegmentObjectRef → Option SegmentObjectHash → Option Cce → List ManifestProblem
entry_problems i r h c =
    unless (r.seq == i) (ref_seq i) ++ (hash_problems i h ++ object_problems i r h c)

unfoldable pub loop_problems :
    List SegmentObjectHash → List Cce → ℕ → List SegmentObjectRef → List ManifestProblem
loop_problems hashes objects i [] = []
loop_problems hashes objects i (r ∷ refs) =
    entry_problems i r (get_elem? hashes i) (get_elem? objects i)
    ++ loop_problems hashes objects (suc i) refs

-- a reference that is not there is not compared
abbrev pub id_is : String → Option SegmentObjectRef → Bool
id_is s none = true
id_is s (some r) = str_eq s r.object_id

-- a hash that is not there is a problem
abbrev pub row_is : String → Option SegmentObjectHash → Bool
row_is s none = false
row_is s (some h) = str_eq s h.row_hash

unfoldable pub end_problems : SegmentInput → List ManifestProblem
end_problems seg =
    let n = length seg.object_list in
    unless (id_is seg.first_envelope_id (get_elem? seg.object_list 0)) first_envelope_id
    ++ (unless (id_is seg.last_envelope_id (get_elem? seg.object_list (n - 1))) last_envelope_id
        ++ (unless (row_is seg.first_row_hash (get_elem? seg.object_hash_list 0)) first_row_hash
            ++ unless (row_is seg.last_row_hash (get_elem? seg.object_hash_list (n - 1)))
                last_row_hash))

unfoldable pub cross_check : SegmentInput → List ManifestProblem
unfolding loop_problems end_problems
cross_check seg =
    let n = length seg.object_list in
    unless (ltb 0 n) empty_segment
    ++ (unless (seg.event_count == n) event_count
        ++ (unless (length seg.object_hash_list == n) hash_list_length
            ++ (unless (length seg.objects == n) objects_length
                ++ (loop_problems seg.object_hash_list seg.objects 0 seg.object_list
                    ++ (if ltb 0 n then end_problems seg else [])))))

unfoldable pub resolve_previous_segment :
    ℕ → Option PreviousSegmentRef → Result ManifestError (Option PreviousSegmentRef)
resolve_previous_segment zero none = ok none
resolve_previous_segment zero (some p) = err genesis_with_previous
resolve_previous_segment (suc n) none = err previous_required
resolve_previous_segment (suc n) (some p) = ok (some p)

unfoldable pub core_with : SegmentInput → String → Option PreviousSegmentRef → ManifestCore
core_with seg sealed_at previous = record {
  segment_id = seg.segment_id;
  db_id = seg.db_id;
  engine = seg.engine;
  segment_sequence = seg.segment_sequence;
  opened_at = seg.opened_at;
  sealed_at = sealed_at;
  event_count = seg.event_count;
  first_envelope_id = seg.first_envelope_id;
  last_envelope_id = seg.last_envelope_id;
  first_row_hash = seg.first_row_hash;
  last_row_hash = seg.last_row_hash;
  object_list = seg.object_list;
  object_hash_list = seg.object_hash_list;
  source_offset_range = seg.source_offset_range;
  fidelity_summary = seg.fidelity_summary;
  completeness_summary = seg.completeness_summary;
  previous_segment = previous;
}

unfoldable pub assemble_manifest_core :
    SegmentInput → String → Option PreviousSegmentRef → Result ManifestError ManifestCore
assemble_manifest_core seg sealed_at given = do
  previous ← resolve_previous_segment seg.segment_sequence given
  ok (core_with seg sealed_at previous)

abbrev ref_json : SegmentObjectRef → Json
ref_json r = object (
    ("seq", number r.seq)
    ∷ ("object_id", str r.object_id)
    ∷ ("worm_object_key", str r.worm_object_key)
    ∷ ("object_type", str "cce")
    ∷ [])

abbrev hash_json : SegmentObjectHash → Json
hash_json h =
    object
      (("seq", number h.seq) ∷ ("event_hash", str h.event_hash) ∷ ("row_hash", str h.row_hash) ∷ [])

abbrev range_json : SegmentOffsetRange → Json
range_json r = object (
    ("first_offset_key", str r.first_offset_key)
    ∷ ("last_offset_key", str r.last_offset_key)
    ∷ ("consumed_gtid_set", optional str r.consumed_gtid_set)
    ∷ [])

abbrev fidelity_json : SegmentFidelitySummary → Json
fidelity_json f = object (
    ("all_healthy", bool f.all_healthy)
    ∷ ("degraded_count", number f.degraded_count)
    ∷ ("compromised_count", number f.compromised_count)
    ∷ ("reasons", texts f.reasons)
    ∷ [])

abbrev completeness_json : SegmentCompletenessSummary → Json
completeness_json c = object (
    ("gap_detected", bool c.gap_detected)
    ∷ ("expected_continuous", bool c.expected_continuous)
    ∷ ("notes", texts c.notes)
    ∷ [])

abbrev previous_json : PreviousSegmentRef → Json
previous_json p = object (
    ("segment_id", str p.segment_id)
    ∷ ("segment_sequence", number p.segment_sequence)
    ∷ ("segment_hash", str p.segment_hash)
    ∷ [])

unfoldable pub manifest_members : ManifestCore → List (String × Json)
manifest_members m =
    ("manifest_version", str "evidence-segment-manifest-1.0")
    ∷ ("segment_id", str m.segment_id)
    ∷ ("db_id", str m.db_id)
    ∷ ("engine", str m.engine)
    ∷ ("segment_sequence", number m.segment_sequence)
    ∷ ("opened_at", str m.opened_at)
    ∷ ("sealed_at", str m.sealed_at)
    ∷ ("event_count", number m.event_count)
    ∷ ("first_envelope_id", str m.first_envelope_id)
    ∷ ("last_envelope_id", str m.last_envelope_id)
    ∷ ("first_row_hash", str m.first_row_hash)
    ∷ ("last_row_hash", str m.last_row_hash)
    ∷ ("object_list", arr (items (map ref_json m.object_list)))
    ∷ ("object_hash_list", arr (items (map hash_json m.object_hash_list)))
    ∷ ("source_offset_range", range_json m.source_offset_range)
    ∷ ("fidelity_summary", fidelity_json m.fidelity_summary)
    ∷ ("completeness_summary", completeness_json m.completeness_summary)
    ∷ ("previous_segment", nullable previous_json m.previous_segment)
    ∷ []

-- the manifest core as the value that is hashed
unfoldable pub manifest_json : ManifestCore → Json
unfolding manifest_members
manifest_json m = object (manifest_members m)

abbrev pub lift {ℓ} : {A : Type ℓ} → Result CanonicalError A → Result ManifestError A
lift (ok a) = ok a
lift (err e) = err (not_canonical e)

abbrev pub no_problems : List ManifestProblem → Bool
no_problems [] = true
no_problems (q ∷ qs) = false

unfoldable pub compute_manifest_hash : Platform → ManifestCore → Result CanonicalError String
compute_manifest_hash js core = hash_value js (manifest_json core)

-- the manifest, if the schema accepts it
abbrev pub completed :
    (SegmentManifest → Bool) → ManifestCore → String → Result ManifestError SegmentManifest
completed validate core hash = do
  reject_if (not (validate (record { core = core; manifest_hash = hash }))) invalid_manifest
  ok (record { core = core; manifest_hash = hash })

unfoldable pub build_segment_manifest :
    Platform
    → (SegmentManifest → Bool)
    → SegmentInput
    → String
    → Option PreviousSegmentRef
    → Result ManifestError SegmentManifest
build_segment_manifest js validate seg sealed_at given = do
  reject_if (not (no_problems (cross_check seg))) (inconsistent (cross_check seg))
  core ← assemble_manifest_core seg sealed_at given
  hash ← lift (compute_manifest_hash js core)
  completed validate core hash
