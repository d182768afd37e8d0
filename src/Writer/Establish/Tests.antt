-- ===== src/Writer/Establish/Tests.antt =====
-- The chain of a segment of two events is established, and the theorem at it.
use external_database_audit.Base.{◌≡◌, refl, true, none, [], ◌∷◌, map}
use external_database_audit.Base.Result.{ok}
use external_database_audit.Base.Sort.{sort, insert}
use external_database_audit.Base.Text.{decimal}
use external_database_audit.Canonical.Json
use external_database_audit.Canonical.Hash
use external_database_audit.Canonical.Hash.{genesis_row_hash}
use external_database_audit.Cce.Core.{core_json}
use external_database_audit.Cce.Verify.{recompute_event_hash}
use external_database_audit.Evidence.{SegmentInput}
use external_database_audit.Evidence.Chain.{verify_segment_chain}
use external_database_audit.Evidence.Fixture.{platform, segment, event, token}
use external_database_audit.Writer.Establish
use external_database_audit.Writer.Establish.{relink, rechained, establish_chain}
use external_database_audit.Writer.Establish.Sound.{establish_chain-verifies}

establish_chain-verifies_example :
    (out : SegmentInput) × (establish_chain platform segment genesis_row_hash ≡ ok out)
    × ((verify_segment_chain platform (record {
      object_list = out.object_list;
      object_hash_list = out.object_hash_list;
      objects = out.objects;
    })).passed
        ≡ true)
    × (map core_json out.objects ≡ map core_json segment.objects)
unfolding recompute_event_hash Hash.is_hash_token Hash.hash_value Hash.event_hash
    Json.serialize_canonical Json.write Json.write_object Json.check_duplicates Json.write_entries
    sort insert decimal core_json
establish_chain-verifies_example =
    establish_chain-verifies platform segment genesis_row_hash (λ s. refl) refl (λ e. cc)
      ((refl, refl), refl, refl, ((refl, refl), refl, refl, tt))

abbrev sealed_events : SegmentInput
sealed_events =
    rechained segment
      (relink (event "a" none) genesis_row_hash token ∷ relink (event "b" none) token token ∷ [])

establish_run : establish_chain platform segment genesis_row_hash ≡ ok sealed_events
unfolding establish_chain Establish.chain_from Hash.row_hash Hash.assert_hash_token
    Hash.is_hash_token
establish_run = refl
