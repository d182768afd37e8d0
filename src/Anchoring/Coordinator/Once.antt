-- ===== src/Anchoring/Coordinator/Once.antt =====
-- A head is anchored at most once over a provider: the record that is stored first stays, and every
-- anchored outcome carries it.
use external_database_audit.Base.{
  ℕ, ◌+◌, ◌≤◌, ◌≡◌, refl, String, Bool, true, false, Option, none, some, List, [], ◌∷◌, ltb,
  if◌then◌else◌, arith,
}
use external_database_audit.Base.Dict
use external_database_audit.Base.Dict.{Dict, is_some, get-set}
use external_database_audit.Base.Lists.{All}
use external_database_audit.Base.Platform.{Platform}
use external_database_audit.Base.Result.{ok, err}
use external_database_audit.Anchoring.Cadence.{RetryPolicy}
use external_database_audit.Evidence.AnchorPayload.{anchor_payload_hash}
use external_database_audit.Anchoring.Record.{AnchorRecord, anchor_id-build}
use external_database_audit.Anchoring.Request.{Reply, request_anchor}
use external_database_audit.Anchoring.Token.{AnchorOutcome}
use external_database_audit.Anchoring.Coordinator.{
  anchored, pending, failed, Delivery, refused, settled, Attempt, Coordinator, Move, call, reply,
  put_elsewhere, settle, anchor_head, keep, retry, judge_reply, reply_to, take_reply, step, run,
}
use external_database_audit.Anchoring.Coordinator.Steady.{
  CarriesMaybe, CarriesStored, IsSteady, hashed-IsSteady, keep_built-IsSteady, new_anchorings,
  new_maybe, put_if_absent-keeps, room, room-put_if_absent, told,
}

All-maybe :
    (P : Delivery → Type 0) (o : Option Delivery) (os : List Delivery)
    → (elim o as (λ _. Type 0) [ none ↦ Unit | some d ↦ P d ])
    → All P os
    → All P (elim o [ none ↦ os | some d ↦ d ∷ os ])
All-maybe P none os h rest = rest
All-maybe P (some d) os h rest = (h, rest)

CarriesMaybe-mono :
    (s t : Dict AnchorRecord) (o : Option Delivery)
    → ((d : Delivery) → CarriesStored s d → CarriesStored t d)
    → CarriesMaybe s o
    → (elim o as (λ _. Type 0) [ none ↦ Unit | some d ↦ CarriesStored t d ])
CarriesMaybe-mono s t none f h = tt
CarriesMaybe-mono s t (some d) f h = f d h

new_anchorings-maybe :
    (key : String) (o : Option Delivery) (os : List Delivery)
    → new_anchorings key (elim o [ none ↦ os | some d ↦ d ∷ os ])
      ≡ new_maybe key o + new_anchorings key os
new_anchorings-maybe key none os = omega arith
new_anchorings-maybe key (some d) os = refl

module _ (js : Platform) (valid : AnchorRecord → Bool) (policy : RetryPolicy) where
  judge_reply-IsSteady :
      (id : String) (a : Attempt) (created_at : String) (o : AnchorOutcome) (c : Coordinator)
      → IsSteady c.store (judge_reply js valid policy id a created_at o c)
  unfolding judge_reply keep retry settle
  judge_reply-IsSteady id a created_at (AnchorOutcome.anchored token) c =
      keep_built-IsSteady js id a.payload_hash _ c (λ r built. anchor_id-build js valid _ r built)
  judge_reply-IsSteady id a created_at (AnchorOutcome.pending reason) c =
      elim (ltb (a.attempt + 1) policy.max_attempts)
        as (λ b. IsSteady c.store (
          if b
          then (
            record c { in_flight = Dict.set id (record a { attempt = a.attempt + 1 }) c.in_flight },
            none,
          )
          else settle id (ok (pending reason policy.max_attempts)) c)) [
            | true ↦ (λ k r h. h, tt, λ k. omega arith)
            | false ↦ (λ k r h. h, tt, λ k. omega arith)
          ]
  judge_reply-IsSteady id a created_at (AnchorOutcome.failed reason) c =
      (λ k r h. h, tt, λ k. omega arith)

  reply_to-IsSteady :
      (id : String) (in_flight : Option Attempt) (r : Reply) (created_at : String) (c : Coordinator)
      → IsSteady c.store (reply_to js valid policy id in_flight r created_at c)
  unfolding reply_to
  reply_to-IsSteady id none r created_at c = told c none tt (λ k. refl)
  reply_to-IsSteady id (some a) r created_at c =
      judge_reply-IsSteady id a created_at (request_anchor js a.provider a.payload_hash r) c

  module _ (sha1 : List ℕ → String → List ℕ) where
    step-IsSteady : (m : Move) (c : Coordinator) → IsSteady c.store (step js valid policy sha1 m c)
    unfolding step anchor_head take_reply
    step-IsSteady (call provider input) c =
        hashed-IsSteady js sha1 provider input (anchor_payload_hash js input.head) c
    step-IsSteady (reply id r created_at) c =
        reply_to-IsSteady id (Dict.get id c.in_flight) r created_at c
    step-IsSteady (put_elsewhere r) c = (
      λ k held h. put_if_absent-keeps k r c.store h,
      tt,
      λ k. ground (arith, room-put_if_absent k r c.store),
    )

    -- A record that the store holds is never replaced, whatever calls, replies and writes of others
    -- come after.
    pub get-run :
        (ms : List Move) (c : Coordinator) (key : String) (r : AnchorRecord)
        → Dict.get key c.store ≡ some r
        → Dict.get key (run js valid policy sha1 ms c).0.store ≡ some r
    unfolding run
    get-run [] c key r held = held
    get-run (m ∷ ms) c key r held =
        get-run ms (step js valid policy sha1 m c).0 key r ((step-IsSteady m c).0 key r held)

    CarriesStored-run :
        (ms : List Move) (c : Coordinator) (o : Delivery)
        → CarriesStored c.store o
        → CarriesStored (run js valid policy sha1 ms c).0.store o
    CarriesStored-run ms c (refused e) h = tt
    CarriesStored-run ms c (settled id (err e)) h = tt
    CarriesStored-run ms c (settled id (ok (anchored r key d))) h = get-run ms c key r h
    CarriesStored-run ms c (settled id (ok (pending reason n))) h = tt
    CarriesStored-run ms c (settled id (ok (failed reason))) h = tt

    -- Every anchored outcome that was ever delivered carries the record that the store holds in the
    -- end under its identity, so all anchored outcomes for one head and provider carry one record.
    pub anchored-run :
        (ms : List Move) (c : Coordinator)
        → All
            (CarriesStored (run js valid policy sha1 ms c).0.store)
            (run js valid policy sha1 ms c).1
    unfolding run
    anchored-run [] c = tt
    anchored-run (m ∷ ms) c =
        let d = (step js valid policy sha1 m c).0 in
        All-maybe (CarriesStored (run js valid policy sha1 ms d).0.store)
          (step js valid policy sha1 m c).1 (run js valid policy sha1 ms d).1
          (CarriesMaybe-mono d.store (run js valid policy sha1 ms d).0.store
            (step js valid policy sha1 m c).1 (CarriesStored-run ms d) (step-IsSteady m c).1)
          (anchored-run ms d)

    -- Over any moves at most one anchored outcome of an identity is new, that is not a repetition of
    -- what was stored before, and none is if the store held a record of the identity at the start.
    pub new_anchorings-run :
        (ms : List Move) (c : Coordinator) (key : String)
        → new_anchorings key (run js valid policy sha1 ms c).1 ≤ room key c.store
    unfolding run
    new_anchorings-run [] c key = ground arith
    new_anchorings-run (m ∷ ms) c key =
        let d = (step js valid policy sha1 m c).0 in
        omega (
          arith,
          new_anchorings-maybe key (step js valid policy sha1 m c).1
              (run js valid policy sha1 ms d).1,
          new_anchorings-run ms d key,
          (step-IsSteady m c).2 key,
        )
