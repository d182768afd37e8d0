-- ===== src/Verifier/Report.antt =====
-- packages/verifier/src/report.ts: the builder of a verification report and its overall result. The
-- identity and the time of a report are given; their defaults come from outside. `validate` is the
-- JSON-schema validation, done by a library.
use external_database_audit.Base.{
  ℕ, String, ◌≡◌, ◌↔◌, ◌∙◌, ap, sym, refl, Bool, true, false, Option, none, some, List, [], ◌∷◌,
  ◌++◌, str_eq, if◌then◌else◌, arith,
}
use external_database_audit.Base.Dict
use external_database_audit.Base.Dict.{Dict, get-set}
use external_database_audit.Base.Lists.{all, All}

pub data CheckResult : Type 0 where
  passed failed skipped : CheckResult

-- a check by its name
pub record VerificationCheck : Type 0 where
  pub check : String
  pub result : CheckResult
  pub details : Option String
  pub offending_ids : Option (List String)

pub record VerifierIdentity : Type 0 where
  pub type : String
  pub identity : Option String

pub record VerificationScope : Type 0 where
  pub first_segment_sequence : ℕ
  pub last_segment_sequence : ℕ

pub record ReportInit : Type 0 where
  pub db_id : String
  pub verifier : VerifierIdentity
  pub scope : VerificationScope
  pub report_id : String
  pub generated_at : String

pub record VerificationReport : Type 0 where
  pub init : ReportInit
  pub overall_passed : Bool
  pub checks : List VerificationCheck

abbrev pub all_checks : List String
all_checks =
    "per_object_hash" ∷ "object_chain" ∷ "segment_manifest" ∷ "cross_segment_continuity"
    ∷ "no_missing_segment" ∷ "no_missing_event" ∷ "hsm_signature" ∷ "anchor_token"
    ∷ "projection_consistency" ∷ []

abbrev without : String → List String → List String
without s [] = []
without s (t ∷ ts) = let rest = without s ts in if str_eq t s then rest else t ∷ rest

abbrev pub required_checks : List String
required_checks = without "projection_consistency" all_checks

unfoldable pub add : VerificationCheck → List VerificationCheck → List VerificationCheck
add c checks = checks ++ c ∷ []

unfoldable pub skip : String → String → List VerificationCheck → List VerificationCheck
unfolding add
skip check details checks =
    add (record { check = check; result = skipped; details = some details; offending_ids = none })
      checks

-- `new Map(checks.map((c) => [c.check, c.result]))`
unfoldable pub by_name_from : Dict CheckResult → List VerificationCheck → Dict CheckResult
by_name_from m [] = m
by_name_from m (c ∷ cs) = by_name_from (Dict.set c.check c.result m) cs

abbrev pub is_pass : Option CheckResult → Bool
is_pass (some passed) = true
is_pass (some failed) = false
is_pass (some skipped) = false
is_pass none = false

unfoldable pub compute_overall : List VerificationCheck → Bool
unfolding by_name_from
compute_overall checks =
    all (λ name. is_pass (Dict.get name (by_name_from [] checks))) required_checks

-- `none` is the error of a report that the schema refuses
unfoldable pub build :
    (VerificationReport → Bool) → ReportInit → List VerificationCheck → Option VerificationReport
build validate init checks =
    let report : VerificationReport = record {
      init = init;
      overall_passed = compute_overall checks;
      checks = checks;
    } in
    if validate report then some report else none

-- the result of the last check of the name
abbrev pub last_result : String → Option CheckResult → List VerificationCheck → Option CheckResult
last_result name found [] = found
last_result name found (c ∷ cs) =
    last_result name (if str_eq c.check name then some c.result else found) cs

get-by_name_from :
    (name : String) (m : Dict CheckResult) (cs : List VerificationCheck)
    → Dict.get name (by_name_from m cs) ≡ last_result name (Dict.get name m) cs
unfolding by_name_from
get-by_name_from name m [] = refl
get-by_name_from name m (c ∷ cs) =
    get-by_name_from name (Dict.set c.check c.result m) cs
    ∙ ap (λ o. last_result name o cs) (get-set c.check name c.result m)

is_pass_iff : (o : Option CheckResult) → (is_pass o ≡ true) ↔ (o ≡ some passed)
is_pass_iff (some passed) = ground arith
is_pass_iff (some failed) = ground arith
is_pass_iff (some skipped) = ground arith
is_pass_iff none = ground arith

all_pass_iff :
    (checks : List VerificationCheck) (names : List String)
    → (all (λ name. is_pass (Dict.get name (by_name_from [] checks))) names ≡ true)
      ↔ All (λ name. last_result name none checks ≡ some passed) names
unfolding Dict.get
all_pass_iff checks [] = ground arith
all_pass_iff checks (name ∷ names) = ground (
  arith,
  all_pass_iff checks names,
  is_pass_iff (Dict.get name (by_name_from [] checks)),
  get-by_name_from name [] checks,
)

built_report :
    (validate : VerificationReport → Bool) (init : ReportInit) (checks : List VerificationCheck)
    (r : VerificationReport)
    → build validate init checks ≡ some r
    → r.overall_passed ≡ compute_overall checks
unfolding build
built_report validate init checks r built = ground arith

-- A report that is built passes exactly when, for every required check, the last result that was added
-- under its name is a pass: a required check that is missing or skipped fails the report, and the
-- advisory check of the projection has no say.
pub overall_passed-build :
    (validate : VerificationReport → Bool) (init : ReportInit) (checks : List VerificationCheck)
    (r : VerificationReport)
    → build validate init checks ≡ some r
    → (r.overall_passed ≡ true)
      ↔ All (λ name. last_result name none checks ≡ some passed) required_checks
unfolding compute_overall
overall_passed-build validate init checks r built =
    let (iff→, iff←) = all_pass_iff checks required_checks in
    let same = built_report validate init checks r built in
    (λ e. iff→ (sym same ∙ e), λ h. same ∙ iff← h)
