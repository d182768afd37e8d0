-- ===== src/Cce/Verify.antt =====
-- packages/cce-model/src/verify.ts
use external_database_audit.Base.{String, Bool, Option, none, some, str_eq}
use external_database_audit.Base.Platform.{Platform}
use external_database_audit.Base.Result.{Result, ok, ◌>>=◌}
use external_database_audit.Canonical.Hash.{genesis_row_hash, hash_value, row_hash}
use external_database_audit.Canonical.Json.{CanonicalError}
use external_database_audit.Cce.{Cce}
use external_database_audit.Cce.Core.{core_json}

pub record HashVerification : Type 0 where
  pub event_hash_ok : Bool
  pub row_hash_ok : Bool

-- `prev_row_hash ?? GENESIS_ROW_HASH`
abbrev pub or_genesis : Option String → String
or_genesis none = genesis_row_hash
or_genesis (some h) = h

module _ (js : Platform) where
  unfoldable pub recompute_event_hash : Cce → Result CanonicalError String
  recompute_event_hash cce = hash_value js (core_json cce)

  unfoldable pub verify_cce : Cce → Result CanonicalError HashVerification
  verify_cce cce = do
    event ← recompute_event_hash cce
    row ← row_hash js (or_genesis cce.evidence.prev_row_hash) cce.evidence.event_hash
    ok (record {
      event_hash_ok = str_eq event cce.evidence.event_hash;
      row_hash_ok = str_eq row cce.evidence.row_hash;
    })
