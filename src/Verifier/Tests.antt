-- ===== src/Verifier/Tests.antt =====
-- The checks of the verifier at small inputs, and the theorems at them.
use external_database_audit.Base.{
  String, map, ◌≡◌, refl, true, false, none, some, List, [], ◌∷◌, arith,
}
use external_database_audit.Base.Dict
use external_database_audit.Base.Lists.{All}
use external_database_audit.Base.Result.{ok}
use external_database_audit.Base.Sort.{sort, insert}
use external_database_audit.Base.Text.{decimal}
use external_database_audit.Canonical.Json
use external_database_audit.Canonical.Hash
use external_database_audit.Canonical.Hash.{genesis_row_hash}
use external_database_audit.Cce.Core.{core_json}
use external_database_audit.Cce.Verify.{recompute_event_hash, verify_cce}
use external_database_audit.Evidence.{SegmentInput, SegmentManifest}
use external_database_audit.Evidence.Fixture.{platform, segment, event, token}
use external_database_audit.Evidence.Chain
use external_database_audit.Evidence.Manifest
use external_database_audit.Writer.Establish
use external_database_audit.Writer.Establish.{relink, rechained, establish_chain}
use external_database_audit.Verifier.Accepts.{all_pass, sealed-accepts}
use external_database_audit.Verifier.Complete.{recompute_no_missing_segment_iff}
use external_database_audit.Verifier.Continuity
use external_database_audit.Verifier.Continuity.{Numbered, recompute_no_missing_segment, IsExactly}
use external_database_audit.Evidence.CrossSegment
use external_database_audit.Verifier.Crossing
use external_database_audit.Verifier.Crossing.{recompute_cross_segment}
use external_database_audit.Verifier.Continued.{recompute_cross_segment_iff, IsContinued}
use external_database_audit.Verifier.Events.{
  sort_by_sequence, recompute_no_missing_event, recompute_no_missing_event_iff, IsCorroborated,
  AreDisjoint,
}
use external_database_audit.Verifier.Report
use external_database_audit.Verifier.Report.{
  CheckResult, VerificationCheck, VerificationReport, ReportInit, passed, failed, skipped,
  last_result, required_checks, build, overall_passed-build, VerificationScope,
}
use external_database_audit.Verifier.Attested.{IsAttested, overall_passed-verify_segments}
use external_database_audit.Verifier.Projection.{recompute_projection_consistency}
use external_database_audit.Verifier.Verify
use external_database_audit.Verifier.Verify.{VerifySegmentsArgs, verify_segments, checks_of}
use external_database_audit.Verifier.Segments
use external_database_audit.Verifier.Segments.{pass, VerifierSegment, recompute_segment}

abbrev scope : VerificationScope
scope = record { first_segment_sequence = 1; last_segment_sequence = 2 }

abbrev segments : List Numbered
segments =
    record { segment_id = "b"; segment_sequence = 2 }
    ∷ record { segment_id = "a"; segment_sequence = 1 }
    ∷ []

recompute_no_missing_segment_iff_example : IsExactly scope segments
unfolding recompute_no_missing_segment Continuity.ids_at
recompute_no_missing_segment_iff_example = (recompute_no_missing_segment_iff segments scope).0 refl

-- a number that is missing, and one that is borne twice
twice :
    (recompute_no_missing_segment
      (record { segment_id = "b"; segment_sequence = 1 }
        ∷ record { segment_id = "a"; segment_sequence = 1 }
        ∷ [])
      scope).offending_ids
    ≡ "b" ∷ "a" ∷ "seq:2" ∷ []
unfolding recompute_no_missing_segment Continuity.dedupe Continuity.ids_at decimal
twice = refl

abbrev init : ReportInit
init = record {
  db_id = "db";
  verifier = record { type = "edam_daily"; identity = none };
  scope = scope;
  report_id = "r";
  generated_at = "t";
}

abbrev check : String → CheckResult → VerificationCheck
check name result = record { check = name; result = result; details = none; offending_ids = none }

-- all required checks pass in the end, and the advisory one fails
abbrev checks : List VerificationCheck
checks =
    check "object_chain" failed
    ∷ check "projection_consistency" failed
    ∷ map (λ name. check name passed) required_checks

abbrev report : VerificationReport
report = record { init = init; overall_passed = true; checks = checks }

overall_passed-build_example : report.overall_passed ≡ true
unfolding build Report.compute_overall Dict.get Dict.set Establish.hash_entries verify_cce
overall_passed-build_example =
    (overall_passed-build (λ r. true) init checks report refl).1
      (refl, (refl, (refl, (refl, (refl, (refl, (refl, (refl, tt))))))))

-- a skipped check fails the report
skipped_check : Report.compute_overall (Report.skip "hsm_signature" "later" checks) ≡ false
unfolding Report.compute_overall Report.skip Dict.get Dict.set Establish.hash_entries verify_cce
skipped_check = refl

abbrev sealed_events : SegmentInput
sealed_events =
    rechained segment
      (relink (event "a" none) genesis_row_hash token ∷ relink (event "b" none) token token ∷ [])

abbrev manifest : SegmentManifest
manifest = record { core = Manifest.core_with sealed_events "t" none; manifest_hash = token }

established : establish_chain platform segment genesis_row_hash ≡ ok sealed_events
unfolding establish_chain Establish.chain_from Hash.row_hash Hash.assert_hash_token
    Hash.is_hash_token
established = refl

built : Manifest.build_segment_manifest platform (λ m. true) sealed_events "t" none ≡ ok manifest
unfolding Manifest.build_segment_manifest Manifest.cross_check Manifest.assemble_manifest_core
    Establish.hash_entries Manifest.entry_problems Manifest.resolve_previous_segment
    Manifest.compute_manifest_hash Hash.hash_value Json.serialize_canonical Manifest.manifest_json
    Manifest.core_with sort Hash.event_hash
built = refl

sealed-accepts_example :
    recompute_segment platform
      (λ m. true)
      (record { manifest = manifest; objects = sealed_events.objects })
    ≡ ok all_pass
unfolding recompute_event_hash Hash.is_hash_token Hash.hash_value Hash.event_hash
    Json.serialize_canonical Json.write Json.write_object Json.check_duplicates Json.write_entries
    sort insert decimal core_json
sealed-accepts_example =
    sealed-accepts platform (λ m. true) segment sealed_events genesis_row_hash "t" none manifest
      (λ s. refl) refl
      (record {
        filled = omega arith;
        counted = refl;
        refs = (refl, refl, (refl, refl, tt));
        first_id = refl;
        last_id = refl;
      })
      ((refl, refl), refl, refl, ((refl, refl), refl, refl, tt)) established built

abbrev first : VerifierSegment
first = record { manifest = manifest; objects = sealed_events.objects }

abbrev second : VerifierSegment
second = record {
  manifest = record {
    core = record manifest.core {
      segment_id = "s1";
      segment_sequence = 1;
      source_offset_range = record {
        first_offset_key = "l";
        last_offset_key = "k";
        consumed_gtid_set = none;
      };
      previous_segment =
          some (record { segment_id = "s0"; segment_sequence = 0; segment_hash = token });
    };
    manifest_hash = token;
  };
  objects = event "c" (some token) ∷ [];
}

recompute_cross_segment_iff_example :
    All (IsContinued platform (second ∷ first ∷ [])) (second ∷ first ∷ [])
unfolding recompute_cross_segment Crossing.by_sequence CrossSegment.verify_cross_segment
    CrossSegment.link_failures CrossSegment.segment_hash_of CrossSegment.previous_segment_hash_of
    CrossSegment.compute_segment_hash Hash.assert_hash_token Hash.is_hash_token Manifest.core_with
    insert
recompute_cross_segment_iff_example =
    (recompute_cross_segment_iff platform (second ∷ first ∷ [])).0 refl

recompute_no_missing_event_iff_example :
    All IsCorroborated (first ∷ []) × AreDisjoint (sort_by_sequence (first ∷ []))
unfolding recompute_no_missing_event Manifest.core_with insert
recompute_no_missing_event_iff_example = (recompute_no_missing_event_iff (first ∷ [])).0 refl

-- the second segment does not start with the offset of its first object
unbound_offset : (recompute_no_missing_event (second ∷ first ∷ [])).offending_ids ≡ "s1" ∷ []
unfolding recompute_no_missing_event Manifest.core_with insert Continuity.dedupe
unbound_offset = refl

-- a run over the first segment alone, whose signature and anchor are taken to pass
abbrev run_args : VerifySegmentsArgs
run_args = record {
  init = record init { scope = record { first_segment_sequence = 0; last_segment_sequence = 0 } };
  segments = first ∷ [];
  verify_anchor = some (λ s. record { hsm_signature = pass; anchor_token = pass });
  projection = none;
}

abbrev run_report : VerificationReport
run_report = record {
  init = run_args.init;
  overall_passed = true;
  checks = checks_of run_args (("s0", all_pass) ∷ []) pass;
}

returned : verify_segments platform (λ m. true) (λ r. true) run_args ≡ ok run_report
unfolding verify_segments Verify.recompute_all recompute_segment Segments.recompute_manifest
    Segments.recompute_with Segments.manifest_problems Chain.verify_segment_chain Chain.check_from
    Chain.check_object build Report.compute_overall checks_of recompute_cross_segment
    recompute_no_missing_segment recompute_no_missing_event Crossing.by_sequence Continuity.ids_at
    CrossSegment.verify_cross_segment Manifest.core_with insert Manifest.compute_manifest_hash
    Hash.hash_value Json.serialize_canonical Manifest.manifest_json recompute_event_hash
    Hash.event_hash core_json Hash.row_hash Hash.assert_hash_token Hash.is_hash_token Report.add
    Dict.get Dict.set Establish.hash_entries verify_cce
returned = refl

overall_passed-verify_segments_example : IsAttested platform (λ m. true) run_args
overall_passed-verify_segments_example =
    (overall_passed-verify_segments platform (λ m. true) (λ r. true) run_args run_report returned).0
      refl

-- a row that drifted, one without an object, and an object without a row
drift :
    (recompute_projection_consistency (first ∷ []) (
      record { object_id = "a"; row_hash = "x" }
      ∷ record { object_id = "c"; row_hash = token }
      ∷ [])).offending_ids
    ≡ "a" ∷ "c" ∷ "b" ∷ []
unfolding recompute_projection_consistency Continuity.dedupe Dict.get Dict.set
drift = refl
