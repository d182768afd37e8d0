-- ===== src/Anchoring/NoFabrication.antt =====
-- A request is answered by an anchored outcome for a verified token only.
use external_database_audit.Base.{
  String, ◌≡◌, ◌≢◌, ◌↔◌, ap, subst, refl, Bool, true, false, Option, none, some, str_eq, eq_iff,
  if◌then◌else◌, arith,
}
use external_database_audit.Base.Platform.{Platform}
use external_database_audit.Canonical.Json.{Json}
use external_database_audit.Canonical.Hash.{is_hash_token}
use external_database_audit.Anchoring.Token.{
  type_text, AnchorOutcome, anchored, pending, failed, field, is, text, is_well_formed_token,
  pending_outcome, failed_outcome, malformed_response, well_formed_outcome,
}
use external_database_audit.Anchoring.Request.{
  Reply, returned, threw, timeout, outage, other, Provider, safe_verify, fault_outcome, judge,
  answer, request_anchor,
}

pub is_iff : (s : String) (v : Json) → (is s v ≡ true) ↔ (text v ≡ some s)
is_iff s v =
    elim (text v)
      as (λ o.
        (elim o as (λ _. Bool) [ none ↦ false | some t ↦ str_eq t s ] ≡ true) ↔ (o ≡ some s)) [
          | none ↦ ground arith
          | some t ↦ ground (arith, eq_iff t s)
        ]

-- what makes a token one that the provider verified for the request
abbrev pub Verified : Provider → String → Json → Type 0
Verified provider request token =
    (text (field "provider_type" token) ≡ some (type_text provider.provider_type))
    × (text (field "payload_hash" token) ≡ some request)
    × (provider.verify_token token request ≡ some true)

safe_verify_iff :
    (provider : Provider) (token : Json) (request : String)
    → (safe_verify provider token request ≡ true)
      ↔ (provider.verify_token token request ≡ some true)
unfolding safe_verify
safe_verify_iff provider token request = ground arith

judge_iff :
    (provider : Provider) (request : String) (o : AnchorOutcome) (token : Json)
    → (judge provider request o ≡ anchored token)
      ↔ ((o ≡ anchored token) × Verified provider request token)
unfolding judge
judge_iff provider request (pending reason) token = ground arith
judge_iff provider request (failed reason) token = ground arith
judge_iff provider request (anchored t) token = ground (
  arith,
  is_iff (type_text provider.provider_type) (field "provider_type" t),
  is_iff request (field "payload_hash" t),
  safe_verify_iff provider t request,
)

pending_outcome-ne-anchored : (reason token : Json) → pending_outcome reason ≢ some (anchored token)
unfolding pending_outcome
pending_outcome-ne-anchored reason token = ground arith

failed_outcome-ne-anchored : (reason token : Json) → failed_outcome reason ≢ some (anchored token)
unfolding failed_outcome
failed_outcome-ne-anchored reason token = ground arith

-- a choice between an anchored outcome, if its token is well formed, and outcomes that are not anchored
choice_iff :
    (a p f w : Bool) (t token : Json) (P F : Option AnchorOutcome)
    → P ≢ some (anchored token)
    → F ≢ some (anchored token)
    → ((if a
          then (if w then some (anchored t) else none)
          else if p
          then P
          else if f
          then F
          else none)
        ≡ some (anchored token))
      ↔ ((a ≡ true) × (t ≡ token) × (w ≡ true))
choice_iff a p f w t token P F np nf = ground arith

-- what makes a value an anchored outcome
abbrev pub HoldsToken : Platform → Json → Json → Type 0
HoldsToken js value token =
    (text (field "status" value) ≡ some "anchored")
    × (field "token" value ≡ token)
    × (is_well_formed_token js token ≡ true)

well_formed_text_iff :
    (js : Platform) (status t token : Json)
    → ((is "anchored" status ≡ true) × (t ≡ token) × (is_well_formed_token js t ≡ true))
      ↔ ((text status ≡ some "anchored") × (t ≡ token) × (is_well_formed_token js token ≡ true))
well_formed_text_iff js status t token = ground (arith, is_iff "anchored" status)

well_formed_outcome_iff :
    (js : Platform) (value token : Json)
    → (well_formed_outcome js value ≡ some (anchored token)) ↔ HoldsToken js value token
unfolding well_formed_outcome
well_formed_outcome_iff js (Json.obj ms) token =
    let o : Json = Json.obj ms in
    let status : Json = field "status" o in
    let t : Json = field "token" o in
    let reason : Json = field "reason" o in
    let chosen =
      choice_iff (is "anchored" status) (is "pending" status) (is "failed" status)
        (is_well_formed_token js t) t token (pending_outcome reason) (failed_outcome reason)
        (pending_outcome-ne-anchored reason token) (failed_outcome-ne-anchored reason token) in
    let texts = well_formed_text_iff js status t token in
    (λ h. texts.0 (chosen.0 h), λ h. chosen.1 (texts.1 h))
well_formed_outcome_iff js value token = ground arith

-- what an outcome that is read from a value amounts to
read_iff :
    (provider : Provider) (request : String) (value token : Json) (read : Option AnchorOutcome)
    (Holds : Type 0)
    → (read ≡ some (anchored token)) ↔ Holds
    → (elim read as (λ _. AnchorOutcome) [
      | none ↦ failed malformed_response
      | some outcome ↦ judge provider request outcome
    ]
        ≡ anchored token)
      ↔ (Holds × Verified provider request token)
read_iff provider request value token none Holds e = ground arith
read_iff provider request value token (some o) Holds e =
    let judged = judge_iff provider request o token in
    (λ h. (e.0 (ap some (judged.0 h).0), (judged.0 h).1), λ (holds, w). judged.1 (ground arith, w))

returned_value : {a b : Json} → returned a ≡ returned b → b ≡ a
returned_value same = cc

answer_iff :
    (js : Platform) (provider : Provider) (request : String) (reply : Reply) (token : Json)
    → (answer js provider request reply ≡ anchored token) ↔ (
        (value : Json) × (reply ≡ returned value)
        × HoldsToken js value token
        × Verified provider request token)
unfolding answer fault_outcome
answer_iff js provider request (threw timeout) token = ground arith
answer_iff js provider request (threw outage) token = ground arith
answer_iff js provider request (threw other) token = ground arith
answer_iff js provider request (returned value) token =
    let e =
      read_iff provider request value token (well_formed_outcome js value)
        (HoldsToken js value token) (well_formed_outcome_iff js value token) in
    (
      λ h. (value, refl, (e.0 h).0, (e.0 h).1),
      λ (v, same, h, w). e.1 (subst (λ u. HoldsToken js u token) (returned_value same) h, w),
    )

-- A request is answered by an anchored outcome for a token exactly when the hash of the request is
-- well formed and the provider returned an anchored outcome that holds the token, the token being
-- well formed, of the provider's type, bound to the hash of the request, and verified by the provider.
-- No throw of the provider, timeout, or failing verification yields a token.
pub request_anchor-anchored_iff :
    (js : Platform) (provider : Provider) (request : String) (reply : Reply) (token : Json)
    → (request_anchor js provider request reply ≡ anchored token) ↔ (
        (is_hash_token request ≡ true)
        × ((value : Json) × (reply ≡ returned value)
            × HoldsToken js value token
            × Verified provider request token))
unfolding request_anchor
request_anchor-anchored_iff js provider request reply token =
    ground (arith, answer_iff js provider request reply token)
