-- ===== src/Dlq.antt =====
-- The dead-letter queue of the stages before the evidence: infra/dlq/src (types.ts, classify.ts,
-- retry.ts, service.ts and the in-memory store of store.ts; Payload is hash.ts). The state is the
-- table of the store, which has no operation that deletes, and the alarms that were raised. `record`
-- is one call of `DlqService.record` at an instant of its clock, which ends before the next begins: its
-- read and its write of the row are one step. The PostgreSQL store, the replay
-- placeholder, the metrics (which raise `dlq_depth`) and the filters of `list` are not modelled.
pub mod Payload
pub mod Keeping
pub mod Poison
mod Tests
use external_database_audit.Base.{
  ℕ, zero, suc, ◌+◌, String, Bool, true, false, not, ◌&&◌, ◌||◌, Option, none, some, List, [], ◌∷◌,
  ◌++◌, leb, str_eq, if◌then◌else◌, ◌==◌,
}
use external_database_audit.Base.Dict
use external_database_audit.Base.Dict.{Dict}
use external_database_audit.Base.Platform.{Platform}
use external_database_audit.Base.Text.{decimal, ◌+++◌}
use external_database_audit.Canonical.Json.{Json}
use external_database_audit.Dlq.Payload.{Runtime, payload_hash, deterministic_event_id}

pub data FailureCategory : Type 0 where
  malformed_cdc_event unsupported_engine schema_validation_failure : FailureCategory
  offset_corruption serialization_failure unexpected_exception unclassified : FailureCategory

pub data DlqStatus : Type 0 where
  retryable quarantined : DlqStatus

pub record DlqItem : Type 0 where
  pub event_id : String
  pub source_engine : String
  pub offset : Option String
  pub failure_category : FailureCategory
  pub failure_reason : String
  pub captured_at : String
  pub retry_count : ℕ
  pub is_retryable : Bool
  pub status : DlqStatus
  pub original_payload : Json
  pub payload_hash : String
  pub first_seen : String
  pub last_seen : String

-- what was thrown: an `Error` (is it a `SyntaxError`?) with its message, a text, or something else
pub data Thrown : Type 0 where
  error : (syntax : Bool) → String → Thrown
  text : String → Thrown
  other : Thrown

pub record FailureContext : Type 0 where
  pub engine : Option String
  pub offset : Option String
  pub payload : Json
  pub thrown : Option Thrown
  pub category : Option FailureCategory
  pub is_retryable : Option Bool
  pub reason : Option String
  pub captured_at : Option String

abbrev pub default_retryable : FailureCategory → Bool
default_retryable unexpected_exception = true
default_retryable _ = false

abbrev pub message_of : Option Thrown → String
message_of (some (error _ s)) = s
message_of (some (text s)) = s
message_of _ = ""

abbrev is_syntax_error : Option Thrown → Bool
is_syntax_error (some (error syntax _)) = syntax
is_syntax_error _ = false

abbrev unmatched : Option Thrown → FailureCategory
unmatched none = unclassified
unmatched (some _) = unexpected_exception

unfoldable pub infer_category : Runtime → Option Thrown → FailureCategory
infer_category rt err =
    let msg = rt.to_lower_case (message_of err) in
    if is_syntax_error err || rt.test "json|parse|malformed|unexpected token" msg
    then malformed_cdc_event
    else if rt.test "unsupported engine|unknown engine|no adapter" msg
    then unsupported_engine
    else if rt.test "schema|validation|invalid cce|rule v\\d" msg
    then schema_validation_failure
    else if rt.test "offset|gtid corrupt|corrupt offset" msg
    then offset_corruption
    else if rt.test "serializ" msg
    then serialization_failure
    else unmatched err

-- `a ?? b`
abbrev pub unless_given {ℓ} : {A : Type ℓ} → Option A → A → A
unless_given none b = b
unless_given (some a) b = a

unfoldable pub classify_failure : Runtime → FailureContext → FailureCategory × Bool
unfolding infer_category
classify_failure rt ctx =
    let category = unless_given ctx.category (infer_category rt ctx.thrown) in
    (category, unless_given ctx.is_retryable (default_retryable category))

abbrev pub is_unclassified : FailureCategory → Bool
is_unclassified unclassified = true
is_unclassified _ = false

unfoldable pub decide_status : FailureCategory → Bool → ℕ → ℕ → DlqStatus
decide_status category can_retry count max_retries =
    if is_unclassified category
    then quarantined
    else if not can_retry
    then quarantined
    else if leb max_retries count
    then quarantined
    else retryable

-- `ctx.reason` counts when it is not empty
unfoldable pub reason_from : FailureContext → String
reason_from ctx =
    let given = unless_given ctx.reason "" in
    if not (str_eq given "") then given else thrown_reason ctx.thrown
  where
    thrown_reason : Option Thrown → String
    thrown_reason (some (error _ s)) = s
    thrown_reason (some (text s)) = s
    thrown_reason _ = "unspecified failure"

pub data DlqAlarmKind : Type 0 where
  dlq_enqueue dlq_quarantine dlq_depth : DlqAlarmKind

pub data DlqAlarmSeverity : Type 0 where
  low medium high critical : DlqAlarmSeverity

-- The message is determined by the reason and the count, which the model keeps in its place.
pub record DlqAlarm : Type 0 where
  pub kind : DlqAlarmKind
  pub severity : DlqAlarmSeverity
  pub at : String
  pub event_id : String
  pub category : FailureCategory
  pub reason : String
  pub retry_count : ℕ

unfoldable pub enqueue_severity : FailureCategory → DlqAlarmSeverity
enqueue_severity unclassified = high
enqueue_severity offset_corruption = high
enqueue_severity _ = medium

pub record Dlq : Type 0 where
  pub rows : Dict DlqItem
  pub alarms : List DlqAlarm

abbrev is_quarantined : DlqStatus → Bool
is_quarantined quarantined = true
is_quarantined retryable = false

-- a call of `record` with the instant that the clock gives
abbrev pub Call : Type 0
Call = FailureContext × String

abbrev next_count : Option DlqItem → ℕ
next_count none = 0
next_count (some old) = old.retry_count + 1

abbrev first_captured : Option DlqItem → Call → String
first_captured none (ctx, now) = unless_given ctx.captured_at now
first_captured (some old) call = old.captured_at

abbrev seen_first : Option DlqItem → String → String
seen_first none now = now
seen_first (some old) now = old.first_seen

abbrev raise : DlqAlarmKind → DlqAlarmSeverity → DlqItem → DlqAlarm
raise kind severity item = record {
  kind = kind;
  severity = severity;
  at = item.last_seen;
  event_id = item.event_id;
  category = item.failure_category;
  reason = item.failure_reason;
  retry_count = item.retry_count;
}

-- `existing?.status !== 'quarantined'`
abbrev was_quarantined : Option DlqItem → Bool
was_quarantined none = false
was_quarantined (some old) = is_quarantined old.status

unfoldable pub alarms_for : Option DlqItem → DlqItem → List DlqAlarm
alarms_for existing item =
    (if Dict.is_some existing
      then []
      else raise dlq_enqueue (enqueue_severity item.failure_category) item ∷ [])
    ++ (if is_quarantined item.status && not (was_quarantined existing)
        then raise dlq_quarantine high item ∷ []
        else [])

module _ (p : Platform) (rt : Runtime) where
  unfoldable pub event_id_of : Call → String
  event_id_of (ctx, now) =
      deterministic_event_id p (unless_given ctx.engine "unknown") ctx.offset
        (payload_hash rt p ctx.payload)

module _ (p : Platform) (rt : Runtime) (max_retries : ℕ) where
  unfoldable pub item_for : Call → Option DlqItem → DlqItem
  unfolding event_id_of classify_failure reason_from
  item_for (ctx, now) existing =
      let class = classify_failure rt ctx in
      record {
        event_id = event_id_of p rt (ctx, now);
        source_engine = unless_given ctx.engine "unknown";
        offset = ctx.offset;
        failure_category = class.0;
        failure_reason = reason_from ctx;
        captured_at = first_captured existing (ctx, now);
        retry_count = next_count existing;
        is_retryable = class.1;
        status = decide_status class.0 class.1 (next_count existing) max_retries;
        original_payload = ctx.payload;
        payload_hash = payload_hash rt p ctx.payload;
        first_seen = seen_first existing now;
        last_seen = now;
      }

  unfoldable pub record_failure : Call → Dlq → DlqItem × Dlq
  record_failure call s =
      let existing = Dict.get (event_id_of p rt call) s.rows in
      let item = item_for call existing in
      (
        item,
        record {
          rows = Dict.set item.event_id item s.rows;
          alarms = s.alarms ++ alarms_for existing item;
        },
      )

  unfoldable pub record_all : List Call → Dlq → Dlq
  record_all [] s = s
  record_all (call ∷ calls) s = record_all calls (record_failure call s).1
