-- ===== src/Evidence/AnchorPayload.antt =====
-- packages/evidence/src/anchor-payload.ts: the payload that is signed and anchored. Its two numbers are
-- natural, so the tests that they are integers and not negative hold; `others` are the keys of the
-- object beyond the seven of the payload. Texts stand for their UTF-8 bytes.
use external_database_audit.Base.{
  ℕ, zero, suc, String, Bool, true, false, not, ◌&&◌, ◌||◌, List, [], ◌∷◌, leb, ltb, ◌==◌, str_eq,
  if◌then◌else◌,
}
use external_database_audit.Base.Dict.{is_some}
use external_database_audit.Base.Lists.{length}
use external_database_audit.Base.Platform.{Platform}
use external_database_audit.Base.Result.{Result, ok, err, reject_if, ◌>>=◌, ◌>>◌}
use external_database_audit.Base.Text.{codes, ◌+++◌}
use external_database_audit.Canonical.Json.{Json, CanonicalError, str, serialize_canonical}
use external_database_audit.Canonical.Hash.{is_hash_token, event_hash}
use external_database_audit.Cce.Core.{object, number}
use external_database_audit.Evidence.{SegmentHead}

pub record AnchorPayload : Type 0 where
  pub db_id : String
  pub segment_id : String
  pub segment_sequence : ℕ
  pub segment_hash : String
  pub last_row_hash : String
  pub head_count : ℕ
  pub signed_at : String
  pub others : List String

pub data PayloadError : Type 0 where
  unexpected_field empty_db_id empty_segment_id segment_hash_token : PayloadError
  last_row_hash_token head_count_below_one signed_at_not_real : PayloadError
  not_canonical : CanonicalError → PayloadError

abbrev anchor_payload_domain : String
anchor_payload_domain = "edam-anchor-payload-v1"

abbrev is_digit : ℕ → Bool
is_digit c = leb b'0' c && leb c b'9'

-- a shape: `d` is a digit, any other code point is itself; what is left behind it goes to `rest`
abbrev shaped : List ℕ → (List ℕ → Bool) → List ℕ → Bool
shaped [] rest s = rest s
shaped (p ∷ ps) rest [] = false
shaped (p ∷ ps) rest (c ∷ s) = (if p == b'd' then is_digit c else c == p) && shaped ps rest s

abbrev at_end : List ℕ → Bool
at_end [] = true
at_end (c ∷ s) = false

-- `(Z|[+-]\d{2}:\d{2})$`
abbrev is_zone : List ℕ → Bool
is_zone [] = false
is_zone (c ∷ s) =
    if c == b'Z' then at_end s else (c == b'+' || c == b'-') && shaped (codes "dd:dd") at_end s

-- the digits of the fraction, of which there may be so many more, and the zone behind them
abbrev fraction : ℕ → List ℕ → Bool
fraction zero s = is_zone s
fraction (suc more) [] = false
fraction (suc more) (c ∷ s) =
    let digits = fraction more s in if is_digit c then digits else is_zone (c ∷ s)

-- `(\.\d{1,9})?` and the zone
abbrev fraction_or_zone : List ℕ → Bool
fraction_or_zone [] = false
fraction_or_zone (c ∷ s) =
    if c == b'.' then (shaped (codes "d") (fraction 8) s) else is_zone (c ∷ s)

-- the regular expression
unfoldable pub is_rfc3339 : String → Bool
is_rfc3339 s = shaped (codes "dddd-dd-ddTdd:dd:dd") fraction_or_zone (codes s)

module _ (js : Platform) where
  unfoldable pub assert_valid_anchor_payload : AnchorPayload → Result PayloadError (Unit {0})
  unfolding is_rfc3339
  assert_valid_anchor_payload p = do
    reject_if (ltb 0 (length p.others)) unexpected_field
    reject_if (str_eq p.db_id "") empty_db_id
    reject_if (str_eq p.segment_id "") empty_segment_id
    reject_if (not (is_hash_token p.segment_hash)) segment_hash_token
    reject_if (not (is_hash_token p.last_row_hash)) last_row_hash_token
    reject_if (ltb p.head_count 1) head_count_below_one
    reject_if (not (is_rfc3339 p.signed_at && is_some (js.date_parse p.signed_at)))
        signed_at_not_real

  unfoldable pub clean_anchor_payload : AnchorPayload → Result PayloadError AnchorPayload
  unfolding assert_valid_anchor_payload
  clean_anchor_payload p = do assert_valid_anchor_payload p; ok (record p { others = [] })

  unfoldable pub build_anchor_payload : SegmentHead → ℕ → String → Result PayloadError AnchorPayload
  unfolding assert_valid_anchor_payload
  build_anchor_payload head head_count signed_at =
      let payload : AnchorPayload = record {
        db_id = head.db_id;
        segment_id = head.segment_id;
        segment_sequence = head.segment_sequence;
        segment_hash = head.segment_hash;
        last_row_hash = head.last_row_hash;
        head_count = head_count;
        signed_at = signed_at;
        others = [];
      } in
      do assert_valid_anchor_payload payload; ok payload

-- the clean object as a value
unfoldable pub payload_json : AnchorPayload → Json
payload_json p = object (
    ("db_id", str p.db_id)
    ∷ ("segment_id", str p.segment_id)
    ∷ ("segment_sequence", number p.segment_sequence)
    ∷ ("segment_hash", str p.segment_hash)
    ∷ ("last_row_hash", str p.last_row_hash)
    ∷ ("head_count", number p.head_count)
    ∷ ("signed_at", str p.signed_at)
    ∷ [])

abbrev as_payload_error : Result CanonicalError String → Result PayloadError String
as_payload_error (ok s) = ok s
as_payload_error (err e) = err (not_canonical e)

module _ (js : Platform) where
  unfoldable pub serialize_anchor_payload : AnchorPayload → Result PayloadError String
  unfolding clean_anchor_payload payload_json
  serialize_anchor_payload p = do
    clean ← clean_anchor_payload js p
    as_payload_error (serialize_canonical js (payload_json clean))

  unfoldable pub anchor_signing_message : AnchorPayload → Result PayloadError String
  unfolding serialize_anchor_payload
  anchor_signing_message p = do
    s ← serialize_anchor_payload p
    ok (anchor_payload_domain +++ ":" +++ s)

  unfoldable pub anchor_payload_hash : AnchorPayload → Result PayloadError String
  unfolding serialize_anchor_payload
  anchor_payload_hash p = do s ← serialize_anchor_payload p; ok (event_hash js s)
