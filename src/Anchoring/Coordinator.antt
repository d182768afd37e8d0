-- ===== src/Anchoring/Coordinator.antt =====
-- `AnchorCoordinator` and `InMemoryAnchorRecordStore` of services/anchoring/src/retry-cadence.ts. What
-- runs between two awaits is one move; the moves come in any order: a call of `anchorHead`, the reply
-- of the provider that a head in flight awaits (with the time of the clock, read if the reply is
-- anchored), and a `putIfAbsent` of another holder of the same store. A call for a head in flight
-- shares its outcome. The wait before the next attempt is part of awaiting its reply.
pub mod Steady
pub mod Changes
pub mod Once
pub mod Answered
mod Tests
use external_database_audit.Base.{
  ℕ, ◌+◌, ◌≡◌, String, Bool, true, false, not, Option, none, some, List, [], ◌∷◌, ltb, str_eq,
  if◌then◌else◌,
}
use external_database_audit.Base.Dict
use external_database_audit.Base.Dict.{Dict}
use external_database_audit.Base.Platform.{Platform}
use external_database_audit.Base.Result.{Result, ok, err, reject_if, ◌>>◌}
use external_database_audit.Canonical.Json.{Json}
use external_database_audit.Cce.{Nullish}
use external_database_audit.Evidence.AnchorPayload.{
  AnchorPayload, PayloadError, anchor_payload_hash,
}
use external_database_audit.Anchoring.Cadence.{RetryPolicy}
use external_database_audit.Anchoring.Identity.{anchor_id_for}
use external_database_audit.Anchoring.Record.{
  AnchorRecord, RecordError, SignatureResult, BuildInput, build_anchor_record, head_payload,
}
use external_database_audit.Anchoring.Request.{Provider, Reply, request_anchor}
use external_database_audit.Anchoring.Token.{AnchorOutcome, PendingReason, FailureReason}

pub record AnchorHeadInput : Type 0 where
  pub head : AnchorPayload
  pub hsm_signature : SignatureResult
  pub signature_revoked_at : Nullish String

pub data CoordinatorOutcome : Type 0 where
  anchored : AnchorRecord → (anchor_id : String) → (deduplicated : Bool) → CoordinatorOutcome
  pending : PendingReason → (attempts : ℕ) → CoordinatorOutcome
  failed : FailureReason → CoordinatorOutcome

pub data CoordinatorError : Type 0 where
  unhashable : PayloadError → CoordinatorError
  unbuildable : RecordError → CoordinatorError
  collision : (anchor_id stored_head_hash requested_head_hash : String) → CoordinatorError

-- what becomes of a call: the head has no identity, or its outcome under its identity
pub data Delivery : Type 0 where
  refused : PayloadError → Delivery
  settled : String → Result CoordinatorError CoordinatorOutcome → Delivery

-- a head in flight, in the attempt with that index
pub record Attempt : Type 0 where
  pub provider : Provider
  pub input : AnchorHeadInput
  pub payload_hash : String
  pub attempt : ℕ

pub record Coordinator : Type 0 where
  pub store : Dict AnchorRecord
  pub in_flight : Dict Attempt

-- the constructor, with an empty store; `none` is the error
unfoldable pub create : RetryPolicy → Option Coordinator
create policy =
    if ltb policy.max_attempts 1 then none else some (record { store = []; in_flight = [] })

-- the store and the record that it holds afterwards
unfoldable pub put_if_absent : AnchorRecord → Dict AnchorRecord → Dict AnchorRecord × AnchorRecord
put_if_absent r store = elim (Dict.get r.anchor_id store) [
  | none ↦ (Dict.set r.anchor_id r store, r)
  | some existing ↦ (store, existing)
]

pub data Move : Type 0 where
  call : Provider → AnchorHeadInput → Move
  reply : (anchor_id : String) → Reply → (created_at : String) → Move
  put_elsewhere : AnchorRecord → Move

abbrev pub Moved : Type 0
Moved = Coordinator × Option Delivery

-- the head is no longer in flight, and its outcome is delivered
unfoldable pub settle : String → Result CoordinatorError CoordinatorOutcome → Coordinator → Moved
settle id outcome c =
    (record c { in_flight = Dict.delete id c.in_flight }, some (settled id outcome))

module _ (js : Platform) where
  unfoldable pub assert_same_head : AnchorRecord → String → Result CoordinatorError (Unit {0})
  assert_same_head r payload_hash = elim (anchor_payload_hash js (head_payload r)) [
    | err e ↦ err (unhashable e)
    | ok h ↦ reject_if (not (str_eq h payload_hash)) (collision r.anchor_id h payload_hash)
  ]

  -- the outcome for a record of the store, if it is of the same head
  unfoldable pub outcome_for :
      String → String → Bool → AnchorRecord → Result CoordinatorError CoordinatorOutcome
  outcome_for id payload_hash deduplicated r = do
    assert_same_head r payload_hash
    ok (anchored r id deduplicated)

  -- the start of a run: a record that is there is delivered at once
  unfoldable pub start_from :
      Provider → AnchorHeadInput → String → String → Option AnchorRecord → Coordinator → Moved
  start_from provider input payload_hash id (some existing) c =
      (c, some (settled id (outcome_for id payload_hash true existing)))
  start_from provider input payload_hash id none c =
      let a : Attempt = record {
        provider = provider;
        input = input;
        payload_hash = payload_hash;
        attempt = 0;
      } in
      (record c { in_flight = Dict.set id a c.in_flight }, none)

  -- a call with the hash of its head: one for a head in flight shares that outcome
  unfoldable pub identified :
      Provider → AnchorHeadInput → String → String → Option Attempt → Coordinator → Moved
  unfolding start_from
  identified provider input payload_hash id (some a) c = (c, none)
  identified provider input payload_hash id none c =
      start_from provider input payload_hash id (Dict.get id c.store) c

  module _ (sha1 : List ℕ → String → List ℕ) where
    unfoldable pub hashed :
        Provider → AnchorHeadInput → Result PayloadError String → Coordinator → Moved
    unfolding identified
    hashed provider input (err e) c = (c, some (refused e))
    hashed provider input (ok payload_hash) c =
        let id = anchor_id_for sha1 payload_hash provider.provider_type in
        identified provider input payload_hash id (Dict.get id c.in_flight) c

    unfoldable pub anchor_head : Provider → AnchorHeadInput → Coordinator → Moved
    unfolding hashed
    anchor_head provider input c = hashed provider input (anchor_payload_hash js input.head) c

  -- a record that is built is put, and compared with the head
  unfoldable pub keep_built :
      String → String → Result RecordError AnchorRecord → Coordinator → Moved
  unfolding put_if_absent settle
  keep_built id payload_hash (err e) c = settle id (err (unbuildable e)) c
  keep_built id payload_hash (ok r) c =
      let deduplicated = Dict.has r.anchor_id c.store in
      let (store, stored) = put_if_absent r c.store in
      settle id (outcome_for id payload_hash deduplicated stored) (record c { store = store })

module _ (js : Platform) (valid : AnchorRecord → Bool) where
  -- an anchored reply
  unfoldable pub keep : String → Attempt → AnchorOutcome → String → Coordinator → Moved
  unfolding keep_built
  keep id a outcome created_at c =
      keep_built js id a.payload_hash
        (build_anchor_record js valid (record {
          head = a.input.head;
          hsm_signature = a.input.hsm_signature;
          anchor_outcome = outcome;
          anchor_id = id;
          created_at = created_at;
          signature_revoked_at = a.input.signature_revoked_at;
        }))
        c

  module _ (policy : RetryPolicy) where
    -- a pending reply: another attempt, if one is left
    unfoldable pub retry : String → Attempt → PendingReason → Coordinator → Moved
    unfolding settle
    retry id a reason c =
        if ltb (a.attempt + 1) policy.max_attempts
        then (
          record c { in_flight = Dict.set id (record a { attempt = a.attempt + 1 }) c.in_flight },
          none,
        )
        else settle id (ok (pending reason policy.max_attempts)) c

    unfoldable pub judge_reply : String → Attempt → String → AnchorOutcome → Coordinator → Moved
    unfolding keep retry settle
    judge_reply id a created_at (AnchorOutcome.anchored token) c =
        keep id a (AnchorOutcome.anchored token) created_at c
    judge_reply id a created_at (AnchorOutcome.pending reason) c = retry id a reason c
    judge_reply id a created_at (AnchorOutcome.failed reason) c = settle id (ok (failed reason)) c

    -- a reply that no head in flight awaits changes nothing
    unfoldable pub reply_to : String → Option Attempt → Reply → String → Coordinator → Moved
    unfolding judge_reply
    reply_to id none r created_at c = (c, none)
    reply_to id (some a) r created_at c =
        judge_reply id a created_at (request_anchor js a.provider a.payload_hash r) c

    unfoldable pub take_reply : String → Reply → String → Coordinator → Moved
    unfolding reply_to
    take_reply id r created_at c = reply_to id (Dict.get id c.in_flight) r created_at c

    module _ (sha1 : List ℕ → String → List ℕ) where
      unfoldable pub step : Move → Coordinator → Moved
      unfolding anchor_head take_reply put_if_absent
      step (call provider input) c = anchor_head js sha1 provider input c
      step (reply id r created_at) c = take_reply id r created_at c
      step (put_elsewhere r) c = (record c { store = (put_if_absent r c.store).0 }, none)

      unfoldable pub run : List Move → Coordinator → Coordinator × List Delivery
      run [] c = (c, [])
      run (m ∷ ms) c =
          let (d, delivery) = step m c in
          let (last, rest) = run ms d in (last, elim delivery [ none ↦ rest | some o ↦ o ∷ rest ])
