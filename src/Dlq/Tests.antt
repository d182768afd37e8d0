-- ===== src/Dlq/Tests.antt =====
-- A failing event at a runtime in miniature, and the theorems at it.
use external_database_audit.Base.{String, ◌≡◌, refl, true, false, none, some, List, [], ◌∷◌, arith}
use external_database_audit.Base.Dict
use external_database_audit.Base.Platform.{Platform}
use external_database_audit.Canonical.Json.{str}
use external_database_audit.Dlq.{
  FailureContext, unexpected_exception, DlqItem, quarantined, Call, error, event_id_of, item_for,
  record_all, classify_failure, infer_category,
}
use external_database_audit.Dlq.Keeping.{
  recorded, empty_dlq, Continues, recorded-record_all, record_all-keeps_first,
}
use external_database_audit.Dlq.Payload.{
  Runtime, payload_hash, deterministic_event_id, stable_stringify,
}
use external_database_audit.Dlq.Poison.{status_of, record_all-quarantines}

abbrev platform : Platform
platform = record { nfc = λ s. s; quote = λ s. s; sha256_hex = λ s. s; date_parse = λ s. none }

abbrev runtime : Runtime
runtime = record {
  json_stringify = λ v. none;
  to_string = λ v. "";
  before = λ a b. true;
  to_lower_case = λ s. s;
  test = λ pattern s. false;
}

abbrev failure : FailureContext
failure = record {
  engine = some "mysql";
  offset = some "7";
  payload = str "row";
  thrown = some (error false "no route");
  category = none;
  is_retryable = none;
  reason = none;
  captured_at = none;
}

abbrev calls : List Call
calls = (failure, "10:00") ∷ (failure, "10:01") ∷ (failure, "10:02") ∷ []

abbrev failure_id : String
failure_id = "dlq-mysql|7|sha256:row"

failure-unexpected : classify_failure runtime failure ≡ (unexpected_exception, true)
unfolding classify_failure infer_category
failure-unexpected = refl

failure-id : event_id_of platform runtime (failure, "10:00") ≡ failure_id
unfolding event_id_of deterministic_event_id payload_hash stable_stringify
failure-id = refl

abbrev first_item : DlqItem
first_item = item_for platform runtime 2 (failure, "10:00") none

recorded-record_all_example :
    recorded (Dict.get failure_id (record_all platform runtime 2 calls empty_dlq).rows) ≡ 3
unfolding Dict.get event_id_of deterministic_event_id payload_hash stable_stringify
recorded-record_all_example = recorded-record_all platform runtime 2 failure_id calls empty_dlq

record_all-quarantines_example :
    status_of (Dict.get failure_id (record_all platform runtime 2 calls empty_dlq).rows)
    ≡ some quarantined
unfolding event_id_of deterministic_event_id payload_hash stable_stringify
record_all-quarantines_example =
    record_all-quarantines platform runtime 2 failure_id calls (omega arith)

record_all-keeps_first_example :
    (new : DlqItem) × (Dict.get failure_id
        (record_all platform runtime 2 calls
          (record { rows = (failure_id, first_item) ∷ []; alarms = [] })).rows
      ≡ some new)
    × Continues first_item new
unfolding Dict.get
record_all-keeps_first_example =
    record_all-keeps_first platform runtime 2 failure_id first_item calls
      (record { rows = (failure_id, first_item) ∷ []; alarms = [] }) refl
