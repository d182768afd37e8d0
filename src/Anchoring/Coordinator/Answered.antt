-- ===== src/Anchoring/Coordinator/Answered.antt =====
-- No head stays in flight for ever: the replies to it are bounded by the attempts of the policy.
use external_database_audit.Base.{
  ℕ, ◌+◌, ◌≤◌, ◌<◌, ◌≡◌, inl, inr, refl, String, Bool, true, Option, none, some, List, [], ◌∷◌,
  str_eq, eq_iff, if◌then◌else◌, arith, Bool-cases,
}
use external_database_audit.Base.Dict
use external_database_audit.Base.Dict.{Dict, get-set, get-delete}
use external_database_audit.Base.Lists.{any}
use external_database_audit.Base.Platform.{Platform}
use external_database_audit.Evidence.AnchorPayload.{anchor_payload_hash}
use external_database_audit.Anchoring.Cadence.{RetryPolicy}
use external_database_audit.Anchoring.Record.{AnchorRecord}
use external_database_audit.Anchoring.Request.{Reply, request_anchor}
use external_database_audit.Anchoring.Coordinator.{
  Delivery, Attempt, Coordinator, create, Move, call, reply, put_elsewhere, anchor_head,
  judge_reply, reply_to, take_reply, step, run,
}
use external_database_audit.Anchoring.Coordinator.Changes.{
  Change-Goes, Change-IsBelow, Change-other, Goes, Goes-mono, IsBelow, IsBelow-hashed, get-hashed,
  is_reply, judge_reply-Change, replies, settles, settles_maybe,
}

module _ (js : Platform) (valid : AnchorRecord → Bool) (policy : RetryPolicy) where
  IsBelow-reply_to :
      (k : String) (x : Option Attempt) (r : Reply) (created_at : String) (c : Coordinator)
      → IsBelow policy.max_attempts c.in_flight
      → IsBelow policy.max_attempts (reply_to js valid policy k x r created_at c).0.in_flight
  unfolding reply_to
  IsBelow-reply_to k none r created_at c below = below
  IsBelow-reply_to k (some a) r created_at c below =
      Change-IsBelow policy.max_attempts k a c _
        (judge_reply-Change js valid policy k a created_at
          (request_anchor js a.provider a.payload_hash r) c)
        below

  reply_to-Goes :
      (k id : String) (x : Option Attempt) (r : Reply) (created_at : String) (c : Coordinator)
      (b : Attempt)
      → Dict.get k c.in_flight ≡ x
      → Dict.get id c.in_flight ≡ some b
      → Goes policy.max_attempts id
          (b.attempt + (if str_eq k id then 1 else 0))
          (reply_to js valid policy k x r created_at c)
  unfolding reply_to
  reply_to-Goes k id none r created_at c b e held = inr (b, held, ground (arith, eq_iff k id))
  reply_to-Goes k id (some a) r created_at c b e held =
      let o = request_anchor js a.provider a.payload_hash r in
      let moved = judge_reply js valid policy k a created_at o c in
      let change = judge_reply-Change js valid policy k a created_at o c in
      elim (Bool-cases (str_eq k id)) [
        | inl same ↦
            Goes-mono policy.max_attempts k id (b.attempt + (if str_eq k id then 1 else 0))
              (a.attempt + 1) moved ((eq_iff k id).0 same) (ground (arith, eq_iff k id))
              (Change-Goes policy.max_attempts k a c moved change)
        | inr other ↦
            inr
              (b, Change-other policy.max_attempts k id a b c moved change other held, ground arith)
      ]

  module _ (sha1 : List ℕ → String → List ℕ) where
    IsBelow-step :
        (m : Move) (c : Coordinator)
        → 0 < policy.max_attempts
        → IsBelow policy.max_attempts c.in_flight
        → IsBelow policy.max_attempts (step js valid policy sha1 m c).0.in_flight
    unfolding step anchor_head take_reply
    IsBelow-step (call provider input) c pos below =
        IsBelow-hashed js policy.max_attempts sha1 provider input
          (anchor_payload_hash js input.head) c pos below
    IsBelow-step (reply k r created_at) c pos below = IsBelow-reply_to k _ r created_at c below
    IsBelow-step (put_elsewhere r) c pos below = below

    IsBelow-run :
        (ms : List Move) (c : Coordinator)
        → 0 < policy.max_attempts
        → IsBelow policy.max_attempts c.in_flight
        → IsBelow policy.max_attempts (run js valid policy sha1 ms c).0.in_flight
    unfolding run
    IsBelow-run [] c pos below = below
    IsBelow-run (m ∷ ms) c pos below =
        IsBelow-run ms (step js valid policy sha1 m c).0 pos (IsBelow-step m c pos below)

    step-Goes :
        (m : Move) (c : Coordinator) (id : String) (b : Attempt)
        → Dict.get id c.in_flight ≡ some b
        → Goes policy.max_attempts id
            (b.attempt + (if is_reply id m then 1 else 0))
            (step js valid policy sha1 m c)
    unfolding step anchor_head take_reply
    step-Goes (call provider input) c id b held = inr (
      b,
      get-hashed js sha1 provider input (anchor_payload_hash js input.head) id c b held,
      omega arith,
    )
    step-Goes (reply k r created_at) c id b held = reply_to-Goes k id _ r created_at c b refl held
    step-Goes (put_elsewhere r) c id b held = inr (b, held, omega arith)

    settled-first :
        (id : String) (o : Option Delivery) (os : List Delivery)
        → settles_maybe id o ≡ true
        → any (settles id) (elim o [ none ↦ os | some d ↦ d ∷ os ]) ≡ true
    settled-first id none os h = cc
    settled-first id (some d) os h = ground arith

    settled-later :
        (id : String) (o : Option Delivery) (os : List Delivery)
        → any (settles id) os ≡ true
        → any (settles id) (elim o [ none ↦ os | some d ↦ d ∷ os ]) ≡ true
    settled-later id none os h = h
    settled-later id (some d) os h = ground arith

    settled-run :
        (ms : List Move) (c : Coordinator) (id : String) (b : Attempt)
        → 0 < policy.max_attempts
        → IsBelow policy.max_attempts c.in_flight
        → Dict.get id c.in_flight ≡ some b
        → policy.max_attempts ≤ b.attempt + replies id ms
        → any (settles id) (run js valid policy sha1 ms c).1 ≡ true
    unfolding run
    settled-run [] c id b pos below held enough = absurd (omega (arith, below id b held))
    settled-run (m ∷ ms) c id b pos below held enough =
        let d = (step js valid policy sha1 m c).0 in
        let rest = (run js valid policy sha1 ms d).1 in
        elim (step-Goes m c id b held) [
          | inl done ↦ settled-first id (step js valid policy sha1 m c).1 rest done
          | inr (a, after, more) ↦
              settled-later id (step js valid policy sha1 m c).1 rest
                (settled-run ms d id a pos (IsBelow-step m c pos below) after (omega arith))
        ]

    create-IsBelow :
        (c : Coordinator)
        → create policy ≡ some c
        → (0 < policy.max_attempts) × IsBelow policy.max_attempts c.in_flight
    unfolding create Dict.get
    create-IsBelow c made = (ground arith, λ id a held. ground arith)

    -- Whatever moves came before, a head in flight has its outcome delivered in any moves that hold
    -- as many replies to it as the policy allows attempts, whatever else stands between them.
    pub in_flight-settles :
        (c : Coordinator) (before after : List Move) (id : String) (a : Attempt)
        → create policy ≡ some c
        → Dict.get id (run js valid policy sha1 before c).0.in_flight ≡ some a
        → policy.max_attempts ≤ replies id after
        → any (settles id) (run js valid policy sha1 after (run js valid policy sha1 before c).0).1
          ≡ true
    in_flight-settles c before after id a made held enough =
        let (pos, below) = create-IsBelow c made in
        settled-run after (run js valid policy sha1 before c).0 id a pos
          (IsBelow-run before c pos below) held (omega arith)
