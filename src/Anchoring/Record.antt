-- ===== src/Anchoring/Record.antt =====
-- services/anchoring/src/anchor-record.ts: the record of an anchoring. `valid` is the JSON-schema
-- validation of @edam/contracts, done by a library. The identity and the instant of creation are
-- given; their defaults, a random UUID and the time, are inputs from outside. The version of a record
-- is a constant in the source and is left out.
use external_database_audit.Base.{ℕ, String, ◌≡◌, Bool, not, none, some, if◌then◌else◌, arith, []}
use external_database_audit.Base.Platform.{Platform}
use external_database_audit.Base.Result.{Result, ok, err, reject_if, ◌>>=◌, ◌>>◌}
use external_database_audit.Canonical.Json.{Json}
use external_database_audit.Cce.{Nullish}
use external_database_audit.Evidence.AnchorPayload.{
  AnchorPayload, PayloadError, anchor_payload_hash,
}
use external_database_audit.Anchoring.Token.{
  AnchorOutcome, anchored, pending, failed, field, is, text,
}

pub record SignatureResult : Type 0 where
  pub algorithm : String
  pub signing_key_id : String
  pub signature : String

pub record AnchorRecordHead : Type 0 where
  pub segment_id : String
  pub segment_sequence : ℕ
  pub segment_hash : String
  pub last_row_hash : String
  pub head_count : ℕ
  pub signed_at : String

pub record AnchorRecordHsmSignature : Type 0 where
  pub algorithm : String
  pub signing_key_id : String
  pub signature : String
  pub revoked_at : Nullish String

pub record AnchorRecord : Type 0 where
  pub anchor_id : String
  pub db_id : String
  pub head : AnchorRecordHead
  pub hsm_signature : AnchorRecordHsmSignature
  pub anchor_provider : Json
  pub created_at : String

pub record AnchorRef : Type 0 where
  pub head_hash : String
  pub hsm_signature : String
  pub tsa_token : Json
  pub anchor_provider : Json

pub record BuildInput : Type 0 where
  pub head : AnchorPayload
  pub hsm_signature : SignatureResult
  pub anchor_outcome : AnchorOutcome
  pub anchor_id : String
  pub created_at : String
  pub signature_revoked_at : Nullish String

pub data RecordError : Type 0 where
  unverified : AnchorOutcome → RecordError
  head_mismatch : (head_hash token_hash : String) → RecordError
  schema : RecordError
  payload : PayloadError → RecordError

abbrev pub as_record_error : Result PayloadError String → Result RecordError String
as_record_error (ok s) = ok s
as_record_error (err e) = err (payload e)

abbrev pub token_of : AnchorOutcome → Result RecordError Json
token_of (anchored token) = ok token
token_of (pending reason) = err (unverified (pending reason))
token_of (failed reason) = err (unverified (failed reason))

-- the text of a value that is one
abbrev pub text_or_empty : Json → String
text_or_empty v = elim (text v) [ none ↦ "" | some s ↦ s ]

abbrev pub record_for : BuildInput → Json → AnchorRecord
record_for input token = record {
  anchor_id = input.anchor_id;
  db_id = input.head.db_id;
  head = record {
    segment_id = input.head.segment_id;
    segment_sequence = input.head.segment_sequence;
    segment_hash = input.head.segment_hash;
    last_row_hash = input.head.last_row_hash;
    head_count = input.head.head_count;
    signed_at = input.head.signed_at;
  };
  hsm_signature = record {
    algorithm = input.hsm_signature.algorithm;
    signing_key_id = input.hsm_signature.signing_key_id;
    signature = input.hsm_signature.signature;
    revoked_at = input.signature_revoked_at;
  };
  anchor_provider = field "anchor_provider" token;
  created_at = input.created_at;
}

-- `{ db_id: record.db_id, ...record.head }`
abbrev pub head_payload : AnchorRecord → AnchorPayload
head_payload r = record {
  db_id = r.db_id;
  segment_id = r.head.segment_id;
  segment_sequence = r.head.segment_sequence;
  segment_hash = r.head.segment_hash;
  last_row_hash = r.head.last_row_hash;
  head_count = r.head.head_count;
  signed_at = r.head.signed_at;
  others = [];
}

module _ (js : Platform) (valid : AnchorRecord → Bool) where
  unfoldable pub build_anchor_record : BuildInput → Result RecordError AnchorRecord
  build_anchor_record input = do
    token ← token_of input.anchor_outcome
    head_hash ← as_record_error (anchor_payload_hash js input.head)
    reject_if (not (is head_hash (field "payload_hash" token)))
        (head_mismatch head_hash (text_or_empty (field "payload_hash" token)))
    reject_if (not (valid (record_for input token))) schema
    ok (record_for input token)

unfoldable pub build_anchor_ref : Platform → AnchorRecord → Result PayloadError AnchorRef
build_anchor_ref js r = do
  head_hash ← anchor_payload_hash js (head_payload r)
  ok (record {
    head_hash = head_hash;
    hsm_signature = r.hsm_signature.signature;
    tsa_token =
        if is "rfc3161" (field "type" r.anchor_provider)
        then field "rfc3161_token" r.anchor_provider
        else Json.undefined;
    anchor_provider = field "type" r.anchor_provider;
  })

-- A record is built under the identity that it is given.
pub anchor_id-build :
    (js : Platform) (valid : AnchorRecord → Bool) (input : BuildInput) (r : AnchorRecord)
    → build_anchor_record js valid input ≡ ok r
    → r.anchor_id ≡ input.anchor_id
unfolding build_anchor_record
anchor_id-build js valid input r built = ground arith
