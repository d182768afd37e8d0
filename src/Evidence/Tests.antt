-- ===== src/Evidence/Tests.antt =====
-- Runs of the verifiers on a segment of two events, and the theorems at them.
use external_database_audit.Base.{◌≢◌, ◌⊎◌, ◌≡◌, refl, true, none, some, []}
use external_database_audit.Base.Result.{ok}
use external_database_audit.Base.Sort.{sort, insert}
use external_database_audit.Base.Text.{decimal}
use external_database_audit.Canonical.Json
use external_database_audit.Canonical.Hash
use external_database_audit.Cce.Core.{core_json}
use external_database_audit.Cce.Verify.{verify_cce, recompute_event_hash}
use external_database_audit.Evidence.Chain
use external_database_audit.Evidence.Chain.{verify_segment_chain}
use external_database_audit.Evidence.Chain.Exact.{AreIntact, verify_segment_chain_iff}
use external_database_audit.Evidence.Chain.Tamper.{
  Collision, start, contents, verified_or_collision,
}
use external_database_audit.Evidence.CrossSegment
use external_database_audit.Evidence.CrossSegment.{verify_cross_segment}
use external_database_audit.Evidence.CrossSegment.Exact.{
  has_passed, IsGenesis, FollowsSome, verify_cross_segment_iff,
}
use external_database_audit.Evidence.Manifest
use external_database_audit.Evidence.Manifest.{cross_check, build_segment_manifest}
use external_database_audit.Evidence.Manifest.Exact.{IsConsistent}
use external_database_audit.Evidence.Manifest.Built.{IsLinkFor, build_segment_manifest-eq-ok_iff}
use external_database_audit.Evidence.Fixture.{
  chained_segment, platform, event, token, chain, other_chain, refs, hashes, genesis_manifest,
  next_manifest,
}

event_hash_run : recompute_event_hash platform (event "a" none) ≡ ok token
unfolding recompute_event_hash Hash.hash_value Hash.event_hash Json.serialize_canonical Json.write
    Json.write_object Json.check_duplicates Json.write_entries core_json sort insert decimal
event_hash_run = refl

chain_run : (verify_segment_chain platform chain).passed ≡ true
unfolding verify_segment_chain Chain.check_from Chain.check_object verify_cce recompute_event_hash
    Hash.row_hash Hash.assert_hash_token Hash.is_hash_token Hash.hash_value Hash.event_hash
    Json.serialize_canonical Json.write Json.write_object Json.check_duplicates Json.write_entries
    core_json sort insert decimal
chain_run = refl

other_chain_run : (verify_segment_chain platform other_chain).passed ≡ true
unfolding verify_segment_chain Chain.check_from Chain.check_object verify_cce recompute_event_hash
    Hash.row_hash Hash.assert_hash_token Hash.is_hash_token Hash.hash_value Hash.event_hash
    Json.serialize_canonical Json.write Json.write_object Json.check_duplicates Json.write_entries
    core_json sort insert decimal
other_chain_run = refl

cross_run :
    has_passed (verify_cross_segment platform next_manifest token (some genesis_manifest)) ≡ true
unfolding verify_cross_segment CrossSegment.link_failures CrossSegment.segment_hash_of
    CrossSegment.previous_segment_hash_of CrossSegment.compute_segment_hash Hash.assert_hash_token
    Hash.is_hash_token
cross_run = refl

verify_segment_chain_iff_example :
    (chain.objects ≢ []) × AreIntact platform refs hashes 0 none chain.objects
verify_segment_chain_iff_example = (verify_segment_chain_iff platform chain).0 chain_run

verified_or_collision_example :
    ((start chain.objects ≡ start other_chain.objects)
      × (contents platform chain.objects ≡ contents platform other_chain.objects))
    ⊎ Collision platform
verified_or_collision_example =
    verified_or_collision platform chain other_chain chain_run other_chain_run refl refl

verify_cross_segment_iff_example :
    IsGenesis next_manifest (some genesis_manifest)
    ⊎ FollowsSome platform next_manifest token (some genesis_manifest)
verify_cross_segment_iff_example =
    (verify_cross_segment_iff platform next_manifest token (some genesis_manifest)).0 cross_run

cross_check_run : cross_check chained_segment ≡ []
unfolding cross_check Manifest.loop_problems Manifest.entry_problems Manifest.end_problems
cross_check_run = refl

build_run :
    build_segment_manifest platform (λ m. true) chained_segment "z" none ≡ ok genesis_manifest
unfolding build_segment_manifest cross_check Manifest.loop_problems Manifest.entry_problems
    Manifest.end_problems Manifest.assemble_manifest_core Manifest.resolve_previous_segment
    Manifest.core_with Manifest.compute_manifest_hash Manifest.manifest_json Hash.hash_value
    Hash.event_hash Json.serialize_canonical Json.write Json.write_object Json.check_duplicates
    Json.write_entries sort insert decimal
build_run = refl

build_segment_manifest-eq-ok_iff_example :
    IsConsistent chained_segment
    × IsLinkFor 0 none
    × (genesis_manifest.core ≡ Manifest.core_with chained_segment "z" none)
    × (Manifest.compute_manifest_hash platform genesis_manifest.core ≡ ok token)
    × (true ≡ true)
build_segment_manifest-eq-ok_iff_example =
    (build_segment_manifest-eq-ok_iff platform (λ m. true) chained_segment "z" none
        genesis_manifest).0
      build_run
