-- ===== src/Anchoring/Token.antt =====
-- services/anchoring/src/types.ts and the shape tests of anchor-service.ts. What a provider answers is
-- an unknown value, here one of JSON's; an object has each of its keys once. A token stays the value
-- that the provider gave.
use external_database_audit.Base.{
  String, Bool, true, false, not, ◌&&◌, Option, none, some, List, [], ◌∷◌, str_eq, if◌then◌else◌,
}
use external_database_audit.Base.Lists.{any}
use external_database_audit.Base.Dict.{is_some}
use external_database_audit.Base.Platform.{Platform}
use external_database_audit.Canonical.Json.{Json, Members, num, str, arr, obj, end, member}
use external_database_audit.Canonical.Hash.{is_hash_token}

pub data ProviderType : Type 0 where
  rfc3161 transparency_log dual_custodian : ProviderType

abbrev pub type_text : ProviderType → String
type_text rfc3161 = "rfc3161"
type_text transparency_log = "transparency_log"
type_text dual_custodian = "dual_custodian"

abbrev pub anchor_provider_types : List String
anchor_provider_types = "rfc3161" ∷ "transparency_log" ∷ "dual_custodian" ∷ []

pub data PendingReason : Type 0 where
  provider_outage provider_timeout provider_error : PendingReason

pub data FailureReason : Type 0 where
  unsupported_provider invalid_request malformed_response : FailureReason
  hash_mismatch token_verification_failed : FailureReason

pub data AnchorOutcome : Type 0 where
  anchored : Json → AnchorOutcome
  pending : PendingReason → AnchorOutcome
  failed : FailureReason → AnchorOutcome

-- `v.k`, which is `undefined` where there is no such key
abbrev lookup : String → Members → Json
lookup k end = Json.undefined
lookup k (member j v ms) = if str_eq j k then v else lookup k ms

abbrev pub field : String → Json → Json
field k (obj ms) = lookup k ms
field k v = Json.undefined

abbrev pub text : Json → Option String
text (str s) = some s
text v = none

-- `typeof v === 'string'`
abbrev is_text : Json → Bool
is_text v = is_some (text v)

abbrev is_nonempty_text : Json → Bool
is_nonempty_text v = elim (text v) [ none ↦ false | some s ↦ not (str_eq s "") ]

-- `v === s`
abbrev pub is : String → Json → Bool
is s v = elim (text v) [ none ↦ false | some t ↦ str_eq t s ]

abbrev is_record : Json → Bool
is_record (obj ms) = true
is_record v = false

abbrev is_array : Json → Bool
is_array (arr xs) = true
is_array v = false

-- `Number.isInteger(v)`
abbrev is_integer : Json → Bool
is_integer (num negative n) = true
is_integer v = false

abbrev is_log_proof : Json → Bool
is_log_proof tl =
    is_record tl
    && is_text (field "log_id" tl)
    && is_integer (field "leaf_index" tl)
    && is_array (field "inclusion_proof" tl)
    && is_text (field "signed_tree_head" tl)

abbrev is_custodian_proof : Json → Bool
is_custodian_proof dc =
    is_record dc
    && is_text (field "custodian_id" dc)
    && is_text (field "signature" dc)
    && is_text (field "key_ref" dc)
    && is_text (field "timestamp" dc)

-- the `switch` over the proof's type
unfoldable pub is_proof : Json → Bool
is_proof ap =
    let kind = field "type" ap in
    if is "rfc3161" kind
    then is_nonempty_text (field "rfc3161_token" ap) && is_nonempty_text (field "tsa_cert_ref" ap)
    else if is "transparency_log" kind
    then is_log_proof (field "transparency_log" ap)
    else if is "dual_custodian" kind
    then is_custodian_proof (field "dual_custodian" ap)
    else false

-- do two values hold the same text?
abbrev same_text : Json → Json → Bool
same_text a b = elim (text a) [ none ↦ false | some s ↦ is s b ]

unfoldable pub pending_outcome : Json → Option AnchorOutcome
pending_outcome reason =
    if is "provider_outage" reason
    then some (pending provider_outage)
    else if is "provider_timeout" reason
    then some (pending provider_timeout)
    else if is "provider_error" reason
    then some (pending provider_error)
    else none

unfoldable pub failed_outcome : Json → Option AnchorOutcome
failed_outcome reason =
    if is "unsupported_provider" reason
    then some (failed unsupported_provider)
    else if is "invalid_request" reason
    then some (failed invalid_request)
    else if is "malformed_response" reason
    then some (failed malformed_response)
    else if is "hash_mismatch" reason
    then some (failed hash_mismatch)
    else if is "token_verification_failed" reason
    then some (failed token_verification_failed)
    else none

module _ (js : Platform) where
  unfoldable pub is_well_formed_token : Json → Bool
  unfolding is_proof
  is_well_formed_token t =
      is_record t
      && any (λ s. is s (field "provider_type" t)) anchor_provider_types
      && elim (text (field "payload_hash" t)) [ none ↦ false | some h ↦ is_hash_token h ]
      && elim (text (field "anchored_at" t)) [ none ↦ false | some at ↦ is_some (js.date_parse at) ]
      && is_record (field "anchor_provider" t)
      && same_text (field "provider_type" t) (field "type" (field "anchor_provider" t))
      && is_proof (field "anchor_provider" t)

  -- the outcome that a value is, if it is well formed
  unfoldable pub well_formed_outcome : Json → Option AnchorOutcome
  unfolding is_well_formed_token pending_outcome failed_outcome
  well_formed_outcome o =
      let status = field "status" o in
      let reason = field "reason" o in
      if not (is_record o)
      then none
      else if is "anchored" status
      then (if is_well_formed_token (field "token" o)
          then some (anchored (field "token" o))
          else none)
      else if is "pending" status
      then pending_outcome reason
      else if is "failed" status
      then failed_outcome reason
      else none
