-- ===== src/Evidence/Chain.antt =====
-- packages/evidence/src/chain.ts: the verification of a segment's object chain. The text of a failure
-- is left out. `seq` is none for a failure of the whole segment, -1 in the source.
pub mod Exact
pub mod Tamper
use external_database_audit.Base.{
  ℕ, zero, suc, ◌+◌, String, Bool, true, false, not, ◌&&◌, ◌||◌, Option, none, some, List, [], ◌∷◌,
  ◌++◌, str_eq, ◌==◌, if◌then◌else◌,
}
use external_database_audit.Base.Lists.{get_elem?, length}
use external_database_audit.Base.Platform.{Platform}
use external_database_audit.Base.Result.{Result, ok, err}
use external_database_audit.Canonical.Json.{CanonicalError}
use external_database_audit.Cce.{Cce}
use external_database_audit.Cce.Verify.{HashVerification, verify_cce}
use external_database_audit.Evidence.{SegmentObjectRef, SegmentObjectHash, SegmentChainInput}

pub data ChainFailureRule : Type 0 where
  empty order hash_list event_hash row_hash prev_link : ChainFailureRule

pub record ChainFailure : Type 0 where
  pub seq : Option ℕ
  pub rule : ChainFailureRule

pub record ObjectChainCheck : Type 0 where
  pub seq : ℕ
  pub object_id : String
  pub event_hash_ok : Bool
  pub row_hash_ok : Bool
  pub prev_link_ok : Bool
  pub hash_list_ok : Bool
  pub order_ok : Bool

pub record ChainVerification : Type 0 where
  pub passed : Bool
  pub event_count : ℕ
  pub checks : List ObjectChainCheck
  pub failures : List ChainFailure

-- `if (!test) failures.push({ seq: i, rule })`
abbrev pub unless : Bool → ℕ → ChainFailureRule → List ChainFailure
unless true i rule = []
unless false i rule = record { seq = some i; rule = rule } ∷ []

abbrev pub ref_aligned : ℕ → Cce → Option SegmentObjectRef → Bool
ref_aligned i c none = false
ref_aligned i c (some r) = r.seq == i && str_eq r.object_id c.envelope_id

abbrev pub hash_aligned : ℕ → Option SegmentObjectHash → Bool
hash_aligned i none = false
hash_aligned i (some h) = h.seq == i

abbrev pub event_listed : Cce → Option SegmentObjectHash → Bool
event_listed c none = false
event_listed c (some h) = str_eq h.event_hash c.evidence.event_hash

abbrev pub row_listed : Cce → Option SegmentObjectHash → Bool
row_listed c none = false
row_listed c (some h) = str_eq h.row_hash c.evidence.row_hash

-- a missing entry of `object_hash_list` fails the check but records no failure of this rule
abbrev listing_failures : ℕ → Cce → Option SegmentObjectHash → List ChainFailure
listing_failures i c none = []
listing_failures i c (some h) =
    unless (event_listed c (some h)) i hash_list ++ unless (row_listed c (some h)) i hash_list

abbrev pub same_text : Option String → String → Bool
same_text none s = false
same_text (some t) s = str_eq t s

-- `prevRowHash` is null before the first object, which is not checked
abbrev pub linked : Option String → Cce → Bool
linked none c = true
linked (some prev) c = same_text c.evidence.prev_row_hash prev

abbrev pub event_ok : Result CanonicalError HashVerification → Bool
event_ok (ok v) = v.event_hash_ok
event_ok (err e) = false

abbrev pub row_ok : Result CanonicalError HashVerification → Bool
row_ok (ok v) = v.row_hash_ok
row_ok (err e) = false

-- `verifyCce` threw
abbrev pub threw : Result CanonicalError HashVerification → Bool
threw (ok v) = false
threw (err e) = true

module _ (js : Platform) where
  -- one round of the loop
  unfoldable pub check_object :
      ℕ
      → Option String
      → Cce
      → Option SegmentObjectRef
      → Option SegmentObjectHash
      → ObjectChainCheck × List ChainFailure
  check_object i prev c ref h =
      let v = verify_cce js c in
      (
        record {
          seq = i;
          object_id = c.envelope_id;
          event_hash_ok = event_ok v;
          row_hash_ok = row_ok v;
          prev_link_ok = linked prev c;
          hash_list_ok = event_listed c h && row_listed c h;
          order_ok = ref_aligned i c ref && hash_aligned i h;
        },
        unless (ref_aligned i c ref) i order
            ++ (unless (hash_aligned i h) i order
                ++ (unless (not (threw v)) i event_hash
                    ++ (unless (event_ok v) i event_hash
                        ++ (unless (row_ok v) i row_hash
                            ++ (listing_failures i c h ++ unless (linked prev c) i prev_link))))),
      )

  module _ (refs : List SegmentObjectRef) (hashes : List SegmentObjectHash) where
    unfoldable pub check_from :
        ℕ → Option String → List Cce → List ObjectChainCheck × List ChainFailure
    check_from i prev [] = ([], [])
    check_from i prev (c ∷ cs) =
        let (check, failed) = check_object i prev c (get_elem? refs i) (get_elem? hashes i) in
        let (checks, failures) = check_from (suc i) (some c.evidence.row_hash) cs in
        (check ∷ checks, failed ++ failures)

  abbrev pub none_failed : List ChainFailure → Bool
  none_failed [] = true
  none_failed (f ∷ fs) = false

  unfoldable pub verify_segment_chain : SegmentChainInput → ChainVerification
  verify_segment_chain seg = elim seg.objects [
    | [] ↦ record {
      passed = false;
      event_count = 0;
      checks = [];
      failures = record { seq = none; rule = empty } ∷ [];
    }
    | c ∷ cs ↦
        let (checks, failures) =
          check_from seg.object_list seg.object_hash_list 0 none seg.objects in
        record {
          passed = none_failed failures;
          event_count = length seg.objects;
          checks = checks;
          failures = failures;
        }
  ]
