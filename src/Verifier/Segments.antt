-- ===== src/Verifier/Segments.antt =====
-- packages/verifier/src/verify-segments.ts. The texts of the details are left out; `validate` is the
-- JSON-schema validation, done by a library. The anchor record of a segment is not read here.
use external_database_audit.Base.{
  ℕ, suc, ◌-◌, String, Bool, true, false, ◌&&◌, Option, none, some, List, [], ◌∷◌, ◌++◌, str_eq,
  ltb, ◌==◌, if◌then◌else◌,
}
use external_database_audit.Base.Lists.{get_elem?, length}
use external_database_audit.Base.Platform.{Platform}
use external_database_audit.Base.Result.{Result, ok, ◌>>=◌}
use external_database_audit.Canonical.Json.{CanonicalError}
use external_database_audit.Cce.{Cce}
use external_database_audit.Evidence.{SegmentObjectRef, SegmentObjectHash, SegmentManifest}
use external_database_audit.Evidence.Chain.{ObjectChainCheck, verify_segment_chain}
use external_database_audit.Evidence.Manifest.{compute_manifest_hash}

pub record VerifierSegment : Type 0 where
  pub manifest : SegmentManifest
  pub objects : List Cce

pub record CheckOutcome : Type 0 where
  pub passed : Bool
  pub offending_ids : List String

pub record SegmentRecomputeResult : Type 0 where
  pub per_object_hash : CheckOutcome
  pub object_chain : CheckOutcome
  pub segment_manifest : CheckOutcome

abbrev pub pass : CheckOutcome
pass = record { passed = true; offending_ids = [] }

abbrev pub fail : List String → CheckOutcome
fail ids = record { passed = false; offending_ids = ids }

pub data RecomputeProblem : Type 0 where
  schema manifest_hash event_count hash_list_length objects_length : RecomputeProblem
  objects_hash_length : RecomputeProblem
  ref_seq hash_seq object_id event_hash row_hash : ℕ → RecomputeProblem
  first_envelope_id last_envelope_id first_row_hash last_row_hash : RecomputeProblem

-- `if (!test) problems.push(problem)`
abbrev pub unless : Bool → RecomputeProblem → List RecomputeProblem
unless true problem = []
unless false problem = problem ∷ []

abbrev pub seq_is : ℕ → Option SegmentObjectHash → Bool
seq_is i none = false
seq_is i (some h) = h.seq == i

abbrev pub event_is : String → Option SegmentObjectHash → Bool
event_is s none = false
event_is s (some h) = str_eq h.event_hash s

abbrev pub row_is : String → Option SegmentObjectHash → Bool
row_is s none = false
row_is s (some h) = str_eq h.row_hash s

abbrev pub id_is : String → Option SegmentObjectRef → Bool
id_is s none = false
id_is s (some r) = str_eq s r.object_id

-- the sequence numbers of both lists
unfoldable pub seq_problems :
    List SegmentObjectHash → ℕ → List SegmentObjectRef → List RecomputeProblem
seq_problems hashes i [] = []
seq_problems hashes i (r ∷ refs) =
    unless (r.seq == i) (ref_seq i)
    ++ (unless (seq_is i (get_elem? hashes i)) (hash_seq i) ++ seq_problems hashes (suc i) refs)

-- the objects against the entries of both lists, as far as both go
unfoldable pub binding_problems :
    List SegmentObjectHash → ℕ → List SegmentObjectRef → List Cce → List RecomputeProblem
binding_problems hashes i [] cs = []
binding_problems hashes i (r ∷ refs) [] = []
binding_problems hashes i (r ∷ refs) (c ∷ cs) =
    unless (str_eq r.object_id c.envelope_id) (object_id i)
    ++ (unless (event_is c.evidence.event_hash (get_elem? hashes i)) (event_hash i)
        ++ (unless (row_is c.evidence.row_hash (get_elem? hashes i)) (row_hash i)
            ++ binding_problems hashes (suc i) refs cs))

unfoldable pub end_problems : SegmentManifest → List RecomputeProblem
end_problems m =
    let n = length m.object_list in
    unless (id_is m.first_envelope_id (get_elem? m.object_list 0)) first_envelope_id
    ++ (unless (id_is m.last_envelope_id (get_elem? m.object_list (n - 1))) last_envelope_id
        ++ (unless (row_is m.first_row_hash (get_elem? m.object_hash_list 0)) first_row_hash
            ++ unless (row_is m.last_row_hash (get_elem? m.object_hash_list (n - 1)))
                last_row_hash))

-- what is found with the recomputed hash of the manifest
unfoldable pub manifest_problems :
    (SegmentManifest → Bool) → VerifierSegment → String → List RecomputeProblem
unfolding seq_problems binding_problems end_problems
manifest_problems validate seg hash =
    let m = seg.manifest in
    let n = length m.object_list in
    unless (validate m) schema
    ++ (unless (str_eq hash m.manifest_hash) manifest_hash
        ++ (unless (m.event_count == n) event_count
            ++ (unless (length m.object_hash_list == n) hash_list_length
                ++ (unless (length seg.objects == n) objects_length
                    ++ (unless (length seg.objects == length m.object_hash_list) objects_hash_length
                        ++ (seq_problems m.object_hash_list 0 m.object_list
                            ++ ((if ltb 0 n then end_problems m else [])
                                ++ binding_problems m.object_hash_list 0 m.object_list
                                    seg.objects)))))))

abbrev pub outcome_of : String → List RecomputeProblem → CheckOutcome
outcome_of id [] = pass
outcome_of id (q ∷ qs) = fail (id ∷ [])

-- the ids of the objects whose check fails the test
abbrev pub failing : (ObjectChainCheck → Bool) → List ObjectChainCheck → List String
failing test [] = []
failing test (c ∷ cs) = let rest = failing test cs in if test c then rest else c.object_id ∷ rest

abbrev pub outcome_for : List String → CheckOutcome
outcome_for [] = pass
outcome_for (id ∷ ids) = fail (id ∷ ids)

abbrev pub chain_ok : ObjectChainCheck → Bool
chain_ok c = c.row_hash_ok && c.prev_link_ok && c.hash_list_ok && c.order_ok

module _ (js : Platform) where
  -- with the outcome for the manifest
  unfoldable pub recompute_with : VerifierSegment → List Cce → CheckOutcome → SegmentRecomputeResult
  recompute_with seg [] manifest = record {
    per_object_hash = fail (seg.manifest.segment_id ∷ []);
    object_chain = fail (seg.manifest.segment_id ∷ []);
    segment_manifest = manifest;
  }
  recompute_with seg (c ∷ cs) manifest =
      let checks =
        (verify_segment_chain js (record {
          object_list = seg.manifest.object_list;
          object_hash_list = seg.manifest.object_hash_list;
          objects = c ∷ cs;
        })).checks in
      record {
        per_object_hash = outcome_for (failing (λ k. k.event_hash_ok) checks);
        object_chain = outcome_for (failing chain_ok checks);
        segment_manifest = manifest;
      }

module _ (js : Platform) (validate : SegmentManifest → Bool) where
  unfoldable pub recompute_manifest : VerifierSegment → Result CanonicalError CheckOutcome
  recompute_manifest seg = do
    hash ← compute_manifest_hash js seg.manifest.core
    ok (outcome_of seg.manifest.segment_id (manifest_problems validate seg hash))

  unfoldable pub recompute_segment : VerifierSegment → Result CanonicalError SegmentRecomputeResult
  recompute_segment seg = do
    manifest ← recompute_manifest seg
    ok (recompute_with js seg seg.objects manifest)
