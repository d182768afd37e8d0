-- ===== src/Anchoring/Request.antt =====
-- services/anchoring/src/anchor-service.ts: a request to a provider, which fails closed. The provider
-- is outside: `Reply` is what awaiting its `anchor` under the timeout gives, and `verify_token` what
-- its `verifyToken` returns, `none` for a throw. An error that the provider throws is a timeout, an
-- outage, or another; the timer of `withTimeout` that fires first is a timeout too.
use external_database_audit.Base.{
  String, Bool, true, false, not, Option, none, some, List, [], ◌∷◌, if◌then◌else◌,
}
use external_database_audit.Base.Dict
use external_database_audit.Base.Dict.{Dict, has}
use external_database_audit.Base.Platform.{Platform}
use external_database_audit.Base.Result.{Result, ok, err}
use external_database_audit.Canonical.Json.{Json}
use external_database_audit.Canonical.Hash.{is_hash_token}
use external_database_audit.Anchoring.Token.{
  ProviderType, type_text, AnchorOutcome, anchored, pending, failed, field, is, well_formed_outcome,
  provider_timeout, provider_outage, provider_error, invalid_request, malformed_response,
  hash_mismatch, token_verification_failed, unsupported_provider,
}

pub data Fault : Type 0 where
  timeout outage other : Fault

pub data Reply : Type 0 where
  returned : Json → Reply
  threw : Fault → Reply

pub record Provider : Type 0 where
  pub provider_type : ProviderType
  pub verify_token : Json → String → Option Bool

unfoldable pub safe_verify : Provider → Json → String → Bool
safe_verify provider token request = elim (provider.verify_token token request) [
  | none ↦ false
  | some b ↦ b
]

unfoldable pub fault_outcome : Fault → AnchorOutcome
fault_outcome timeout = pending provider_timeout
fault_outcome outage = pending provider_outage
fault_outcome other = pending provider_error

-- the tests of a well-formed outcome
unfoldable pub judge : Provider → String → AnchorOutcome → AnchorOutcome
unfolding safe_verify
judge provider request (pending reason) = pending reason
judge provider request (failed reason) = failed reason
judge provider request (anchored token) =
    if not (is (type_text provider.provider_type) (field "provider_type" token))
    then failed malformed_response
    else if not (is request (field "payload_hash" token))
    then failed hash_mismatch
    else if not (safe_verify provider token request)
    then failed token_verification_failed
    else anchored token

abbrev pub is_anchored : AnchorOutcome → Bool
is_anchored (anchored token) = true
is_anchored (pending reason) = false
is_anchored (failed reason) = false

module _ (js : Platform) where
  unfoldable pub answer : Provider → String → Reply → AnchorOutcome
  unfolding fault_outcome judge
  answer provider request (threw fault) = fault_outcome fault
  answer provider request (returned value) = elim (well_formed_outcome js value) [
    | none ↦ failed malformed_response
    | some outcome ↦ judge provider request outcome
  ]

  unfoldable pub request_anchor : Provider → String → Reply → AnchorOutcome
  unfolding answer
  request_anchor provider request reply =
      if not (is_hash_token request) then failed invalid_request else answer provider request reply

-- the constructor: the providers by the text of their type
pub data RegistryError : Type 0 where
  duplicate_provider : ProviderType → RegistryError

unfoldable pub register_all : Dict Provider → List Provider → Result RegistryError (Dict Provider)
register_all m [] = ok m
register_all m (p ∷ ps) =
    let rest = register_all (Dict.set (type_text p.provider_type) p m) ps in
    if has (type_text p.provider_type) m then err (duplicate_provider p.provider_type) else rest

unfoldable pub supports : ProviderType → Dict Provider → Bool
supports type registry = has (type_text type) registry

unfoldable pub provider_of : ProviderType → Dict Provider → Option Provider
provider_of type registry = Dict.get (type_text type) registry

unfoldable pub anchor : Platform → Dict Provider → ProviderType → String → Reply → AnchorOutcome
unfolding request_anchor provider_of
anchor js registry type request reply = elim (provider_of type registry) [
  | none ↦ failed unsupported_provider
  | some provider ↦ request_anchor js provider request reply
]
