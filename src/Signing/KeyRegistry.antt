-- ===== src/Signing/KeyRegistry.antt =====
-- The registry of public signing keys with rotation and revocation:
-- packages/signing/src/key-registry.ts. A method that throws returns the error; the registry is
-- immutable. `date_parse` is `Date.parse`, as in `Worm`.
pub mod Lookup
pub mod Invariant
pub mod Lifecycle
pub mod History
mod Tests
use external_database_audit.Base.{
  ℕ, String, Bool, true, false, not, ◌&&◌, ◌||◌, Option, none, some, List, [], ◌∷◌, ◌++◌, map, ltb,
  leb, str_eq, if◌then◌else◌,
}
use external_database_audit.Base.Dict
use external_database_audit.Base.Dict.{Dict}
use external_database_audit.Base.Lists.{any}
use external_database_audit.Base.Result.{Result, ok, err, or_throw, reject_if, ◌>>=◌, ◌>>◌}

abbrev sign_algorithms : List String
sign_algorithms = "ecdsa-p384" ∷ "ed25519" ∷ "rsa-pss-3072" ∷ "ecdsa-p256" ∷ []

pub record KeyRecord : Type 0 where
  pub signing_key_id : String
  pub algorithm : String
  pub public_key : String
  pub created_at : String
  pub revoked_at : Option String

pub data KeyStatus : Type 0 where
  unknown not_yet_valid active revoked : KeyStatus

pub record DualControlApproval : Type 0 where
  pub requested_by : String
  pub approved_by : String

pub data KeyError : Type 0 where
  unknown_key revoked_key key_not_yet_valid algorithm_mismatch : String → KeyError
  already_exists cannot_revoke_active : String → KeyError
  dual_control invalid_record : KeyError

pub record Registry : Type 0 where
  pub keys : Dict KeyRecord
  pub active_key_id : String

unfoldable pub assert_dual_control : DualControlApproval → Result KeyError (Unit {0})
assert_dual_control a = do
  reject_if (str_eq a.requested_by "") dual_control
  reject_if (str_eq a.approved_by "") dual_control
  reject_if (str_eq a.requested_by a.approved_by) dual_control

unfoldable pub get_key : String → Registry → Option KeyRecord
get_key id r = Dict.get id r.keys

unfoldable pub history : Registry → List KeyRecord
history r = Dict.values r.keys

-- `{ ...k, revoked_at: revokedAt }` for the key of that id, a copy for every other
unfoldable pub mark_revoked : String → String → KeyRecord → KeyRecord
mark_revoked id revoked_at k =
    if str_eq k.signing_key_id id then record k { revoked_at = some revoked_at } else k

-- the constructor's checks of the active key
unfoldable pub with_active : String → Dict KeyRecord → Result KeyError Registry
with_active id keys = do
  found ← or_throw (unknown_key id) (Dict.get id keys)
  reject_if (Dict.is_some found.revoked_at) invalid_record
  ok (record { keys = keys; active_key_id = id })

module _ (date_parse : String → Option ℕ) where
  unfoldable pub is_real_instant : String → Bool
  is_real_instant s = not (str_eq s "") && Dict.is_some (date_parse s)

  -- `Date.parse(a) < Date.parse(b)`, false where either is NaN
  abbrev pub precedes : String → String → Bool
  precedes a b = elim (date_parse a) [
    | none ↦ false
    | some x ↦ elim (date_parse b) [ none ↦ false | some y ↦ ltb x y ]
  ]

  unfoldable pub check_revoked_at : KeyRecord → Option String → Result KeyError (Unit {0})
  check_revoked_at r none = ok tt
  check_revoked_at r (some at) = do
    reject_if (not (is_real_instant at)) invalid_record
    reject_if (precedes at r.created_at) invalid_record

  unfoldable pub validate_record : KeyRecord → Result KeyError KeyRecord
  unfolding check_revoked_at
  validate_record r = do
    reject_if (str_eq r.signing_key_id "") invalid_record
    reject_if (not (any (λ a. str_eq a r.algorithm) sign_algorithms)) invalid_record
    reject_if (str_eq r.public_key "") invalid_record
    reject_if (not (is_real_instant r.created_at)) invalid_record
    check_revoked_at r r.revoked_at
    ok r

  -- the loop of the constructor
  unfoldable pub insert_all : List KeyRecord → Dict KeyRecord → Result KeyError (Dict KeyRecord)
  insert_all [] keys = ok keys
  insert_all (r ∷ rs) keys = do
    frozen ← validate_record r
    reject_if (Dict.has frozen.signing_key_id keys) (already_exists frozen.signing_key_id)
    insert_all rs (Dict.set frozen.signing_key_id frozen keys)

  -- the constructor
  unfoldable pub create : List KeyRecord → String → Result KeyError Registry
  create [] id = err invalid_record
  create (r ∷ rs) id = do keys ← insert_all (r ∷ rs) []; with_active id keys

  abbrev revoked_by : ℕ → Option String → Bool
  revoked_by t none = false
  revoked_by t (some at) = elim (date_parse at) [ none ↦ false | some u ↦ leb u t ]

  abbrev before_creation : ℕ → String → Bool
  before_creation t at = elim (date_parse at) [ none ↦ false | some c ↦ ltb t c ]

  abbrev status_of : Option KeyRecord → Option ℕ → KeyStatus
  status_of none t = unknown
  status_of (some r) none = unknown
  status_of (some r) (some t) =
      if before_creation t r.created_at
      then not_yet_valid
      else if revoked_by t r.revoked_at
      then revoked
      else active

  unfoldable pub status_at : String → String → Registry → KeyStatus
  status_at id instant r = status_of (Dict.get id r.keys) (date_parse instant)

  abbrev is_active : KeyStatus → Bool
  is_active active = true
  is_active _ = false

  abbrev differs : Option String → String → Bool
  differs none actual = false
  differs (some expected) actual = not (str_eq actual expected)

  unfoldable pub is_valid_at : String → String → Option String → Registry → Bool
  unfolding status_at
  is_valid_at id signed_at expected r = elim (Dict.get id r.keys) [
    | none ↦ false
    | some k ↦ if differs expected k.algorithm then false else is_active (status_at id signed_at r)
  ]

  abbrev signable : KeyStatus → KeyRecord → Result KeyError KeyRecord
  signable active k = ok k
  signable not_yet_valid k = err (key_not_yet_valid k.signing_key_id)
  signable _ k = err (revoked_key k.signing_key_id)

  -- `getActiveKey()!` is undefined only in a registry that the constructor did not make
  unfoldable pub assert_signable_active_key :
      String → Option String → Registry → Result KeyError KeyRecord
  unfolding status_at
  assert_signable_active_key signed_at expected r = do
    k ← or_throw (unknown_key r.active_key_id) (Dict.get r.active_key_id r.keys)
    reject_if (differs expected k.algorithm) (algorithm_mismatch k.signing_key_id)
    signable (status_at k.signing_key_id signed_at r) k

  unfoldable pub rotate : KeyRecord → DualControlApproval → Registry → Result KeyError Registry
  rotate new_key approval r = do
    assert_dual_control approval
    frozen ← validate_record new_key
    reject_if (Dict.has frozen.signing_key_id r.keys) (already_exists frozen.signing_key_id)
    reject_if (Dict.is_some frozen.revoked_at) invalid_record
    create (Dict.values r.keys ++ frozen ∷ []) frozen.signing_key_id

  unfoldable pub revoke :
      String → DualControlApproval → String → Registry → Result KeyError Registry
  revoke id approval revoked_at r = do
    assert_dual_control approval
    k ← or_throw (unknown_key id) (Dict.get id r.keys)
    reject_if (str_eq id r.active_key_id) (cannot_revoke_active id)
    reject_if (Dict.is_some k.revoked_at) invalid_record
    reject_if (not (is_real_instant revoked_at)) invalid_record
    reject_if (precedes revoked_at k.created_at) invalid_record
    create (map (mark_revoked id revoked_at) (Dict.values r.keys)) r.active_key_id
