-- ===== src/Audit/Tests.antt =====
-- The evidence writer at small inputs, and the theorems at them.
use external_database_audit.Base.{
  ℕ, ◌≡◌, ◌≢◌, eq_iff, refl, String, true, false, none, some, List, [], ◌∷◌, map, str_eq,
  if◌then◌else◌,
}
use external_database_audit.Base.Dict
use external_database_audit.Base.Platform.{Platform}
use external_database_audit.Anchoring.Request.{Provider, request_anchor, returned}
use external_database_audit.Anchoring.Token.{well_formed_outcome, rfc3161}
use external_database_audit.Canonical.Json
use external_database_audit.Canonical.Hash
use external_database_audit.Cce.{Cce}
use external_database_audit.Cce.Core.{core_json}
use external_database_audit.Cce.Verify.{recompute_event_hash, verify_cce}
use external_database_audit.Base.Sort.{sort, insert}
use external_database_audit.Base.Text.{decimal}
use external_database_audit.Cce.Order
use external_database_audit.Evidence.AnchorPayload
use external_database_audit.Evidence.Chain
use external_database_audit.Evidence.CrossSegment
use external_database_audit.Evidence.Manifest
use external_database_audit.Writer.Accumulator
use external_database_audit.Writer.Sealing
use external_database_audit.Writer.Establish
use external_database_audit.Dlq.Payload.{Runtime}
use external_database_audit.Evidence.Fixture
use external_database_audit.Evidence.Fixture.{event, segment, token}
use external_database_audit.Evidence.{SegmentInput, SegmentManifest, SegmentHead, SegmentObjectRef}
use external_database_audit.Verifier.Segments.{VerifierSegment}
use external_database_audit.Writer.Append.{WriterDeps, Sinks, Clock, EvidencePlacement, cce, append}
use external_database_audit.Writer.Append.Outcome.{IsKept, append-IsKept}
use external_database_audit.Writer.Seal.{
  Sealing, SealerDeps, seal, verification_failed, cross_segment,
}
use external_database_audit.Writer.Seal.FailClosed.{FailsClosed, seal-FailsClosed}
use external_database_audit.Writer.Service.{
  ServiceDeps, Service, ServiceCall, ingesting, Turn, start, run, perform,
}
use external_database_audit.Canonical.Hash.{genesis_row_hash}
use external_database_audit.Writer.Establish.{relink, rechained}
use external_database_audit.Writer.Sealing.{object_refs}
use external_database_audit.Audit.Sealed.{IsSealed, seal-IsSealed}
use external_database_audit.Canonical.Json.{CanonicalError, serialize_canonical}
use external_database_audit.Base.Result.{Result, ok, err}
use external_database_audit.Writer.Append.Sound.{written_json}
use external_database_audit.Writer.Seal.{sealed, sealed_manifest_json}
use external_database_audit.Writer.Seal.Passed.{check_segment-IsChecked}
use external_database_audit.Writer.Seal.Succeeds.{seal_succeeds}
use external_database_audit.Audit.Served.{IsEvidence, run-IsEvidence}

abbrev platform : Platform
platform = record Fixture.platform { date_parse = λ s. some 0 }

abbrev runtime : Runtime
runtime = record {
  json_stringify = λ v. some "{}";
  to_string = λ v. "";
  before = λ a b. false;
  to_lower_case = λ s. s;
  test = λ p s. false;
}

abbrev writer_deps : WriterDeps
writer_deps = record {
  js = platform;
  rt = runtime;
  max_retries = 3;
  encode = λ s. if str_eq s "" then [] else 123 ∷ [];
  validate_cce_full = λ c. ok [];
  validate_snapshot_epoch_manifest = λ v. ok [];
  canonical_message = λ e. "";
  worm_message = λ e. "";
}

abbrev sinks : Sinks
sinks = record {
  worm = record { objects = []; default_retain_until = none };
  dlq = record { rows = []; alarms = [] };
}

abbrev clock : Clock
clock = record { captured_at = "t"; recorded_at = "t" }

abbrev place : EvidencePlacement
place = record { segment_id = "s0"; seq = 0 }

append-IsKept_example :
    IsKept writer_deps
      (cce (event "a" none))
      sinks
      (append writer_deps (cce (event "a" none)) place clock sinks)
append-IsKept_example = append-IsKept writer_deps (cce (event "a" none)) place clock sinks

abbrev sealer_deps : SealerDeps
sealer_deps = record { writer = writer_deps; validate_manifest = λ m. true }

abbrev sealing : Sealing
sealing = record { sinks = sinks; heads = []; alarms = [] }

seal-FailsClosed_example : FailsClosed "z" sealing (seal sealer_deps clock segment none "z" sealing)
seal-FailsClosed_example = seal-FailsClosed sealer_deps clock "z" sealing segment none

-- a second segment without the one before it is not sealed
unlinked :
    (seal sealer_deps clock (record segment { segment_sequence = 1 }) none "z" sealing).0
    ≡ ok (verification_failed cross_segment)
unfolding seal
unlinked = refl

-- two events under the keys of their places
abbrev ready : SegmentInput
ready = record segment { object_list = object_refs "db" "s0" 0 segment.objects }

abbrev chained : SegmentInput
chained =
    rechained ready
      (relink (event "a" none) genesis_row_hash token ∷ relink (event "b" none) token token ∷ [])

abbrev manifest : SegmentManifest
manifest = record { core = Manifest.core_with chained "z" none; manifest_hash = token }

abbrev head : SegmentHead
head = record {
  db_id = "db";
  segment_id = "s0";
  segment_sequence = 0;
  segment_hash = token;
  last_row_hash = token;
}

abbrev keys : List String
keys = map (λ (r : SegmentObjectRef). r.worm_object_key) chained.object_list

seal-IsSealed_example :
    IsSealed sealer_deps clock ready none "z" sealing head manifest "db/s0/manifest.json" keys
      (seal sealer_deps clock ready none "z" sealing).1
unfolding seal Sealing.object_refs Dict.get Dict.set Dict.delete Hash.is_hash_token Hash.row_hash
    Hash.assert_hash_token Hash.hash_value Hash.event_hash Json.serialize_canonical Json.write
    Json.write_object Json.check_duplicates Json.write_entries Establish.establish_chain
    Establish.chain_from Establish.hash_entries Chain.verify_segment_chain Chain.check_from
    Chain.check_object verify_cce recompute_event_hash core_json Manifest.build_segment_manifest
    Manifest.cross_check Manifest.assemble_manifest_core Manifest.entry_problems
    Manifest.resolve_previous_segment Manifest.compute_manifest_hash Manifest.manifest_json
    Manifest.core_with sort insert decimal CrossSegment.verify_cross_segment
    CrossSegment.link_failures CrossSegment.segment_hash_of CrossSegment.previous_segment_hash_of
    CrossSegment.compute_segment_hash CrossSegment.derive_segment_head append
    Sealing.evidence_object_key
seal-IsSealed_example =
    seal-IsSealed sealer_deps clock ready none "z" sealing head manifest "db/s0/manifest.json" keys
      _ refl

abbrev text_of : Result CanonicalError String → String
text_of (ok text) = text
text_of (err e) = ""

abbrev place_of : ℕ → EvidencePlacement
place_of i = record { segment_id = "s0"; seq = i }

abbrev first : Cce
first = relink (event "a" none) genesis_row_hash token

abbrev second : Cce
second = relink (event "b" none) token token

differs : (k j : String) → str_eq k j ≡ false → k ≢ j
differs k j apart e = absurd (cc (apart, (eq_iff k j).1 e))

seal_succeeds_example :
    (t : Sealing) × (seal sealer_deps clock ready none "z" sealing
      ≡ (ok (sealed head manifest "db/s0/manifest.json" keys), t))
unfolding seal Sealing.object_refs Dict.get Dict.set Dict.delete Hash.is_hash_token Hash.row_hash
    Hash.assert_hash_token Hash.hash_value Hash.event_hash Json.serialize_canonical Json.write
    Json.write_object Json.check_duplicates Json.write_entries Establish.establish_chain
    Establish.chain_from Establish.hash_entries Chain.verify_segment_chain Chain.check_from
    Chain.check_object verify_cce recompute_event_hash core_json Manifest.build_segment_manifest
    Manifest.cross_check Manifest.assemble_manifest_core Manifest.entry_problems
    Manifest.resolve_previous_segment Manifest.compute_manifest_hash Manifest.manifest_json
    Manifest.core_with sort insert decimal CrossSegment.verify_cross_segment
    CrossSegment.link_failures CrossSegment.segment_hash_of CrossSegment.previous_segment_hash_of
    CrossSegment.compute_segment_hash CrossSegment.derive_segment_head append
    Sealing.evidence_object_key
seal_succeeds_example =
    seal_succeeds sealer_deps clock ready none "z" sealing chained manifest head (record {
      checked = check_segment-IsChecked sealer_deps chained manifest head ready none "z" refl;
      sound = (
        (
          text_of (serialize_canonical platform (written_json first (place_of 0))),
          record {
            valid = refl;
            event_token = refl;
            row_token = refl;
            verified = refl;
            serializes = refl;
          },
          refl,
        ),
        (
          (
            text_of (serialize_canonical platform (written_json second (place_of 1))),
            record {
              valid = refl;
              event_token = refl;
              row_token = refl;
              verified = refl;
              serializes = refl;
            },
            refl,
          ),
          refl,
        ),
      );
      manifest_text = text_of (serialize_canonical platform (sealed_manifest_json manifest));
      serializes = refl;
      free = (
        refl,
        (differs _ _ refl, (differs _ _ refl, tt)),
        (refl, (differs _ _ refl, tt), (refl, tt, tt)),
      );
    })

abbrev provider : Provider
provider = record { provider_type = rfc3161; verify_token = λ t r. some true }

abbrev service_deps : ServiceDeps
service_deps = record {
  sealer = sealer_deps;
  caps = record { max_events = 1; max_age_ms = 50 };
  db_id = "db";
  sign = λ p. some (record { algorithm = "ed25519"; signing_key_id = "k"; signature = "s" });
  provider = provider;
  valid_record = λ r. true;
  record_text = λ r. "{}";
}

abbrev turn : Turn
turn = record {
  sealed_at = "z";
  clock = clock;
  signed_at = "2026-01-01T00:00:01Z";
  created_at = "t";
  reply = returned Json.null;
  anchor_id = "a";
}

abbrev calls : List ServiceCall
calls =
    ingesting (event "a" none) "t" "t" (λ s. turn)
    ∷ ingesting (event "b" none) "t" "t" (λ s. turn)
    ∷ []

abbrev service : Service
service = record {
  acc = record { opened = []; next_seq = [] };
  sealing = sealing;
  previous = none;
  stats = record { ingested = 0; sealed = 0; anchored = 0; pending = 0; failed = 0; rejected = 0 };
}

run-IsEvidence_example :
    (vs : List VerifierSegment) × IsEvidence service_deps
      (run service_deps calls service).1.sealing
      vs
unfolding start Accumulator.create
run-IsEvidence_example = run-IsEvidence service_deps sealing service calls refl refl

two_sealed : (run service_deps calls service).1.stats.sealed ≡ 2
unfolding run perform Accumulator.add Accumulator.put_in Accumulator.put_found
    Accumulator.open_segment Accumulator.admit Accumulator.seal_then Accumulator.seal
    Accumulator.seal_ordered Sealing.sealed_with Dict.get Dict.set Dict.delete Order.order_cces
    Order.compare_cce Hash.is_hash_token Hash.row_hash Hash.assert_hash_token Hash.hash_value
    Hash.event_hash Json.serialize_canonical Json.write Json.write_object Json.check_duplicates
    Json.write_entries Establish.establish_chain Establish.chain_from Establish.hash_entries
    Chain.verify_segment_chain Chain.check_from Chain.check_object verify_cce recompute_event_hash
    core_json Manifest.build_segment_manifest Manifest.cross_check Manifest.assemble_manifest_core
    Manifest.entry_problems Manifest.resolve_previous_segment Manifest.compute_manifest_hash
    Manifest.manifest_json Manifest.core_with sort insert decimal CrossSegment.verify_cross_segment
    CrossSegment.link_failures CrossSegment.segment_hash_of CrossSegment.previous_segment_hash_of
    CrossSegment.compute_segment_hash CrossSegment.derive_segment_head Accumulator.rejection_of
    append Sealing.evidence_object_key AnchorPayload.build_anchor_payload
    AnchorPayload.assert_valid_anchor_payload AnchorPayload.anchor_payload_hash request_anchor
    well_formed_outcome
two_sealed = refl
