-- ===== src/Signing/KeyRegistry/Tests.antt =====
-- A registry with one key, its rotation and the revocation of the old key, and the theorems at them.
use external_database_audit.Base.{
  ℕ, String, ◌≡◌, refl, false, Option, none, some, [], ◌∷◌, arith, str_eq, if◌then◌else◌, inr,
}
use external_database_audit.Base.Dict
use external_database_audit.Base.Result.{ok, err}
use external_database_audit.Signing.KeyRegistry
use external_database_audit.Signing.KeyRegistry.{
  KeyRecord, KeyError, DualControlApproval, Registry, dual_control, revoked, status_at, is_valid_at,
  create, rotate, revoke, validate_record, assert_dual_control, mark_revoked,
}
use external_database_audit.Signing.KeyRegistry.History.{
  rotate-keeps_history, revoke-keeps_history, revoke-ends_validity,
}
use external_database_audit.Signing.KeyRegistry.Invariant.{IsValid, create-IsValid}

abbrev date_parse : String → Option ℕ
date_parse s =
    if str_eq s "2024"
    then some 24
    else if str_eq s "2025"
    then some 25
    else if str_eq s "2026"
    then some 26
    else none

abbrev key : String → String → KeyRecord
key id created = record {
  signing_key_id = id;
  algorithm = "ed25519";
  public_key = "pem";
  created_at = created;
  revoked_at = none;
}

abbrev approval : DualControlApproval
approval = record { requested_by = "ann"; approved_by = "bob" }

abbrev before : Registry
before = record { keys = ("k1", key "k1" "2024") ∷ []; active_key_id = "k1" }

abbrev rotated : Registry
rotated = record {
  keys = ("k1", key "k1" "2024") ∷ ("k2", key "k2" "2025") ∷ [];
  active_key_id = "k2";
}

abbrev after_revocation : Registry
after_revocation = record {
  keys =
      ("k1", record (key "k1" "2024") { revoked_at = some "2026" }) ∷ ("k2", key "k2" "2025") ∷ [];
  active_key_id = "k2";
}

one_principal_throws :
    rotate date_parse
      (key "k2" "2025")
      (record { requested_by = "ann"; approved_by = "ann" })
      before
    ≡ err dual_control
unfolding rotate assert_dual_control
one_principal_throws = refl

create_run : create date_parse (key "k1" "2024" ∷ []) "k1" ≡ ok before
unfolding create KeyRegistry.insert_all validate_record KeyRegistry.is_real_instant
    KeyRegistry.check_revoked_at KeyRegistry.with_active Dict.get Dict.set
create_run = refl

rotate_run : rotate date_parse (key "k2" "2025") approval before ≡ ok rotated
unfolding rotate assert_dual_control create KeyRegistry.insert_all validate_record
    KeyRegistry.is_real_instant KeyRegistry.check_revoked_at KeyRegistry.with_active Dict.get
    Dict.set
rotate_run = refl

revoke_run : revoke date_parse "k1" approval "2026" rotated ≡ ok after_revocation
unfolding revoke mark_revoked assert_dual_control create KeyRegistry.insert_all validate_record
    KeyRegistry.is_real_instant KeyRegistry.check_revoked_at KeyRegistry.with_active Dict.get
    Dict.set
revoke_run = refl

revoked_status : status_at date_parse "k1" "2026" after_revocation ≡ revoked
unfolding status_at Dict.get
revoked_status = refl

before-IsValid : IsValid date_parse before
before-IsValid = create-IsValid date_parse (key "k1" "2024" ∷ []) "k1" before create_run

rotated-IsValid : IsValid date_parse rotated
unfolding validate_record KeyRegistry.is_real_instant KeyRegistry.check_revoked_at Dict.get
rotated-IsValid = record {
  keyed = (refl, refl, refl, (refl, refl, refl, tt));
  active = (key "k2" "2025", refl, refl);
}

create-IsValid_example : IsValid date_parse before
create-IsValid_example = create-IsValid date_parse (key "k1" "2024" ∷ []) "k1" before create_run

rotate-keeps_history_example :
    (rotated.active_key_id ≡ "k2")
    × (is_valid_at date_parse "k1" "2025" none rotated
        ≡ is_valid_at date_parse "k1" "2025" none before)
unfolding Dict.get
rotate-keeps_history_example =
    rotate-keeps_history date_parse (key "k2" "2025") approval before rotated before-IsValid
      rotate_run "k1" "2025" none (λ e. cc)

revoke-keeps_history_example :
    is_valid_at date_parse "k1" "2025" (some "ed25519") after_revocation
    ≡ is_valid_at date_parse "k1" "2025" (some "ed25519") rotated
revoke-keeps_history_example =
    revoke-keeps_history date_parse "k1" "2026" approval rotated after_revocation 26 rotated-IsValid
      revoke_run refl "k1" "2025" (some "ed25519") 25 refl (inr (omega arith))

revoke-ends_validity_example : is_valid_at date_parse "k1" "2026" none after_revocation ≡ false
revoke-ends_validity_example =
    revoke-ends_validity date_parse "k1" "2026" approval rotated after_revocation 26 rotated-IsValid
      revoke_run refl "2026" none 26 refl (omega arith)
