-- ===== src/Verifier/Verify.antt =====
-- packages/verifier/src/verify.ts: the report over parsed segments. The checks of the signature and the
-- anchor of a segment, where trusted keys and certificates are given, are a function that a call
-- takes. The texts of the details are left out: every failing outcome has one.
use external_database_audit.Base.{
  String, Bool, Option, none, some, List, [], ◌∷◌, ◌++◌, map, if◌then◌else◌,
}
use external_database_audit.Base.Lists.{all}
use external_database_audit.Base.Platform.{Platform}
use external_database_audit.Base.Result.{Result, ok, err, ◌>>=◌}
use external_database_audit.Base.Text.{◌+++◌}
use external_database_audit.Canonical.Json.{CanonicalError}
use external_database_audit.Evidence.{SegmentManifest}
use external_database_audit.Evidence.CrossSegment.{HashError}
use external_database_audit.Verifier.Segments.{
  CheckOutcome, VerifierSegment, SegmentRecomputeResult, recompute_segment,
}
use external_database_audit.Verifier.Report.{
  CheckResult, passed, failed, VerificationCheck, VerificationReport, VerificationScope, ReportInit,
  all_checks, skip, build,
}
use external_database_audit.Verifier.Report
use external_database_audit.Verifier.Continuity.{Numbered, recompute_no_missing_segment}
use external_database_audit.Verifier.Crossing.{recompute_cross_segment}
use external_database_audit.Verifier.Projection.{ProjectionRow, recompute_projection_consistency}
use external_database_audit.Verifier.Events.{recompute_no_missing_event}

pub record AnchorOutcome : Type 0 where
  pub hsm_signature : CheckOutcome
  pub anchor_token : CheckOutcome

pub record VerifySegmentsArgs : Type 0 where
  pub init : ReportInit
  pub segments : List VerifierSegment
  pub verify_anchor : Option (VerifierSegment → AnchorOutcome)
  pub projection : Option (List ProjectionRow)

pub data VerifyError : Type 0 where
  canonical : CanonicalError → VerifyError
  hash : HashError → VerifyError
  invalid_report : VerifyError

-- the ids of the failing outcomes, located by their segment
unfoldable pub located : List (String × CheckOutcome) → List String
located [] = []
located ((id, o) ∷ items) =
    let rest = located items in
    if o.passed then rest else map (λ offending. id +++ "/" +++ offending) o.offending_ids ++ rest

unfoldable pub aggregate : List (String × CheckOutcome) → CheckOutcome
unfolding located
aggregate items = record { passed = all (λ i. i.1.passed) items; offending_ids = located items }

-- `pick` of each segment, under its id
abbrev pub picked :
    (SegmentRecomputeResult → CheckOutcome)
    → List (String × SegmentRecomputeResult)
    → List (String × CheckOutcome)
picked pick results = map (λ r. (r.0, pick r.1)) results

abbrev pub ids_or_none : List String → Option (List String)
ids_or_none [] = none
ids_or_none (id ∷ ids) = some (id ∷ ids)

abbrev pub result_of : CheckOutcome → CheckResult
result_of o = if o.passed then passed else failed

unfoldable pub add_check : String → CheckOutcome → List VerificationCheck → List VerificationCheck
unfolding Report.add
add_check name o checks =
    Report.add
      (record {
        check = name;
        result = result_of o;
        details = none;
        offending_ids = ids_or_none o.offending_ids;
      })
      checks

abbrev pub numbered : VerifierSegment → Numbered
numbered s = record {
  segment_id = s.manifest.segment_id;
  segment_sequence = s.manifest.segment_sequence;
}

abbrev pub skip_default : String → List VerificationCheck → List VerificationCheck
skip_default name checks = skip name "not yet implemented in this verifier stage" checks

-- steps 7 and 8
unfoldable pub anchor_checks :
    Option (VerifierSegment → AnchorOutcome)
    → List VerifierSegment
    → List VerificationCheck
    → List VerificationCheck
unfolding add_check aggregate skip
anchor_checks none segments checks =
    skip_default "anchor_token" (skip_default "hsm_signature" checks)
anchor_checks (some verify_anchor) segments checks =
    add_check "anchor_token"
      (aggregate (map (λ s. (s.manifest.segment_id, (verify_anchor s).anchor_token)) segments))
      (add_check "hsm_signature"
        (aggregate (map (λ s. (s.manifest.segment_id, (verify_anchor s).hsm_signature)) segments))
        checks)

-- step 9
unfoldable pub projection_check :
    Option (List ProjectionRow)
    → List VerifierSegment
    → List VerificationCheck
    → List VerificationCheck
unfolding add_check skip
projection_check none segments checks = skip_default "projection_consistency" checks
projection_check (some rows) segments checks =
    add_check "projection_consistency" (recompute_projection_consistency segments rows) checks

-- the checks of a run, with what was recomputed of the segments and across them
unfoldable pub checks_of :
    VerifySegmentsArgs
    → List (String × SegmentRecomputeResult)
    → CheckOutcome
    → List VerificationCheck
unfolding add_check aggregate anchor_checks projection_check
checks_of args results cross = projection_check args.projection args.segments (
    anchor_checks args.verify_anchor args.segments (
      add_check "no_missing_event" (recompute_no_missing_event args.segments) (
        add_check "no_missing_segment"
          (recompute_no_missing_segment (map numbered args.segments) args.init.scope)
          (add_check "cross_segment_continuity" cross (
            add_check "segment_manifest" (aggregate (picked (λ r. r.segment_manifest) results)) (
              add_check "object_chain" (aggregate (picked (λ r. r.object_chain) results)) (
                add_check "per_object_hash" (aggregate (picked (λ r. r.per_object_hash) results))
                  [])))))))

abbrev pub lifted {ℓ} : {A E : Type ℓ} → (E → VerifyError) → Result E A → Result VerifyError A
lifted f (ok a) = ok a
lifted f (err e) = err (f e)

abbrev pub built : Option VerificationReport → Result VerifyError VerificationReport
built none = err invalid_report
built (some r) = ok r

module _ (js : Platform) (validate : SegmentManifest → Bool) where
  unfoldable pub recompute_all :
      List VerifierSegment → Result CanonicalError (List (String × SegmentRecomputeResult))
  recompute_all [] = ok []
  recompute_all (s ∷ ss) = do
    r ← recompute_segment js validate s
    rest ← recompute_all ss
    ok ((s.manifest.segment_id, r) ∷ rest)

  unfoldable pub verify_segments :
      (VerificationReport → Bool) → VerifySegmentsArgs → Result VerifyError VerificationReport
  unfolding recompute_all checks_of
  verify_segments validate_report args = do
    results ← lifted canonical (recompute_all args.segments)
    cross ← lifted hash (recompute_cross_segment js args.segments)
    built (build validate_report args.init (checks_of args results cross))

unfoldable pub skip_all : List String → List VerificationCheck → List VerificationCheck
unfolding skip
skip_all [] checks = checks
skip_all (name ∷ names) checks = skip_all names (skip_default name checks)

-- `verify` over an input, with the resolved database and scope
unfoldable pub verify : (VerificationReport → Bool) → ReportInit → Option VerificationReport
unfolding skip_all
verify validate init = build validate init (skip_all all_checks [])
