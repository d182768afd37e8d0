-- ===== src/Anchoring/Coordinator/Tests.antt =====
-- Requests to a provider and runs of the coordinator, and the theorems at them.
use external_database_audit.Base.{
  ℕ, ◌≡◌, ◌≤◌, String, refl, Bool, true, false, Option, none, some, List, [], ◌∷◌, map, arith,
}
use external_database_audit.Base.Dict
use external_database_audit.Base.Dict.{Dict}
use external_database_audit.Base.Lists.{All, any}
use external_database_audit.Base.Sort
use external_database_audit.Base.Platform.{Platform}
use external_database_audit.Base.Result.{ok}
use external_database_audit.Canonical.Json
use external_database_audit.Canonical.Json.{Json, str}
use external_database_audit.Canonical.Hash
use external_database_audit.Cce
use external_database_audit.Cce.Core.{object}
use external_database_audit.Evidence.AnchorPayload
use external_database_audit.Evidence.AnchorPayload.{AnchorPayload}
use external_database_audit.Evidence.Fixture.{token}
use external_database_audit.Evidence.Fixture
use external_database_audit.Anchoring.Cadence.{RetryPolicy}
use external_database_audit.Anchoring.Identity
use external_database_audit.Anchoring.Identity.{anchor_id_for}
use external_database_audit.Anchoring.NoFabrication.{request_anchor-anchored_iff}
use external_database_audit.Anchoring.Record
use external_database_audit.Anchoring.Record.{AnchorRecord}
use external_database_audit.Anchoring.Request
use external_database_audit.Anchoring.Request.{Provider, returned, threw, request_anchor}
use external_database_audit.Anchoring.Token
use external_database_audit.Anchoring.Token.{AnchorOutcome, rfc3161, is_well_formed_token}
use external_database_audit.Anchoring.Coordinator
use external_database_audit.Anchoring.Coordinator.{
  Delivery, refused, settled, anchored, Coordinator, AnchorHeadInput, Move, call, reply, run,
}
use external_database_audit.Anchoring.Coordinator.Steady.{CarriesStored, new_anchorings}
use external_database_audit.Anchoring.Coordinator.Once.{anchored-run, new_anchorings-run}
use external_database_audit.Anchoring.Coordinator.Changes.{settles}
use external_database_audit.Anchoring.Coordinator.Answered.{in_flight-settles}

abbrev platform : Platform
platform = record Fixture.platform { date_parse = λ s. some 0 }

abbrev provider : Provider
provider = record { provider_type = rfc3161; verify_token = λ t h. some true }

abbrev stamp : Json
stamp = object (
    ("provider_type", str "rfc3161")
    ∷ ("payload_hash", str token)
    ∷ ("anchored_at", str "2026-01-01T00:00:01Z")
    ∷ (
      "anchor_provider",
      object (
          ("type", str "rfc3161")
          ∷ ("rfc3161_token", str "der")
          ∷ ("tsa_cert_ref", str "cert")
          ∷ []),
    )
    ∷ [])

abbrev anchored_answer : Json
anchored_answer = object (("status", str "anchored") ∷ ("token", stamp) ∷ [])

request_anchor-anchored_iff_example :
    request_anchor platform provider token (returned anchored_answer) ≡ AnchorOutcome.anchored stamp
unfolding Hash.is_hash_token Token.is_well_formed_token
request_anchor-anchored_iff_example =
    (request_anchor-anchored_iff platform provider token (returned anchored_answer) stamp).1
      (refl, (anchored_answer, refl, (refl, refl, refl), (refl, refl, refl)))

abbrev head : AnchorPayload
head = record {
  db_id = "db";
  segment_id = "seg-000001";
  segment_sequence = 1;
  segment_hash = token;
  last_row_hash = token;
  head_count = 1;
  signed_at = "2026-01-01T00:00:00Z";
  others = [];
}

abbrev input : AnchorHeadInput
input = record {
  head = head;
  hsm_signature = record { algorithm = "ed25519"; signing_key_id = "k"; signature = "s" };
  signature_revoked_at = Cce.undefined;
}

abbrev sha1 : List ℕ → String → List ℕ
sha1 bytes s = 1 ∷ 2 ∷ 3 ∷ 4 ∷ 5 ∷ 6 ∷ 7 ∷ 8 ∷ 9 ∷ 10 ∷ 11 ∷ 12 ∷ 13 ∷ 14 ∷ 15 ∷ 16 ∷ 17 ∷ []

abbrev id : String
id = "01020304-0506-5708-890a-0b0c0d0e0f10"

identity : anchor_id_for sha1 token rfc3161 ≡ id
unfolding anchor_id_for Identity.uuidv5 Identity.bytes_to_uuid Identity.uuid_to_bytes
identity = refl

abbrev policy : RetryPolicy
policy = record { max_attempts = 2; base_delay_ms = 1000; max_delay_ms = 30000; factor = none }

abbrev empty : Coordinator
empty = record { store = []; in_flight = [] }

abbrev valid : AnchorRecord → Bool
valid r = true

-- an outage, the token, and a second call
abbrev moves : List Move
moves =
    call provider input
    ∷ reply id (threw Request.outage) "t1"
    ∷ call provider input
    ∷ reply id (returned anchored_answer) "t2"
    ∷ call provider input
    ∷ []

abbrev is_repeated : Delivery → Option Bool
is_repeated (settled k (ok (anchored r key deduplicated))) = some deduplicated
is_repeated delivery = none

delivered_twice :
    map is_repeated (run platform valid policy sha1 moves empty).1 ≡ some false ∷ some true ∷ []
unfolding run Coordinator.step Coordinator.anchor_head Coordinator.hashed Coordinator.identified
    Coordinator.start_from Coordinator.take_reply Coordinator.reply_to Coordinator.judge_reply
    Coordinator.keep Coordinator.keep_built Coordinator.retry Coordinator.settle
    Coordinator.put_if_absent Coordinator.outcome_for Coordinator.assert_same_head anchor_id_for
    Identity.uuidv5 Identity.bytes_to_uuid Identity.uuid_to_bytes AnchorPayload.anchor_payload_hash
    AnchorPayload.serialize_anchor_payload AnchorPayload.clean_anchor_payload
    AnchorPayload.assert_valid_anchor_payload AnchorPayload.is_rfc3339 AnchorPayload.payload_json
    Json.serialize_canonical Json.write Record.build_anchor_record request_anchor
    Token.well_formed_outcome Hash.is_hash_token Hash.event_hash Dict.get Dict.set Dict.delete
    Sort.sort
delivered_twice = refl

anchored-run_example :
    All
      (CarriesStored (run platform valid policy sha1 moves empty).0.store)
      (run platform valid policy sha1 moves empty).1
anchored-run_example = anchored-run platform valid policy sha1 moves empty

new_anchorings-run_example : new_anchorings id (run platform valid policy sha1 moves empty).1 ≤ 1
unfolding Dict.get
new_anchorings-run_example = new_anchorings-run platform valid policy sha1 moves empty id

abbrev outages : List Move
outages =
    reply id (threw Request.outage) "t1"
    ∷ call provider input
    ∷ reply id (threw Request.timeout) "t2"
    ∷ []

in_flight-settles_example :
    any
      (settles id)
      (run platform valid policy sha1 outages
        (run platform valid policy sha1 (call provider input ∷ []) empty).0).1
    ≡ true
unfolding Coordinator.create run Coordinator.step Coordinator.anchor_head Coordinator.hashed
    Coordinator.identified Coordinator.start_from Coordinator.take_reply Coordinator.reply_to
    Coordinator.judge_reply Coordinator.keep Coordinator.keep_built Coordinator.retry
    Coordinator.settle Coordinator.put_if_absent Coordinator.outcome_for
    Coordinator.assert_same_head anchor_id_for Identity.uuidv5 Identity.bytes_to_uuid
    Identity.uuid_to_bytes AnchorPayload.anchor_payload_hash AnchorPayload.serialize_anchor_payload
    AnchorPayload.clean_anchor_payload AnchorPayload.assert_valid_anchor_payload
    AnchorPayload.is_rfc3339 AnchorPayload.payload_json Json.serialize_canonical Json.write
    Record.build_anchor_record request_anchor Token.well_formed_outcome Hash.is_hash_token
    Hash.event_hash Dict.get Dict.set Dict.delete Sort.sort
in_flight-settles_example =
    in_flight-settles platform valid policy sha1 empty (call provider input ∷ []) outages id
      (record { provider = provider; input = input; payload_hash = token; attempt = 0 }) refl refl
      (omega arith)
