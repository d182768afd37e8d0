-- ===== src/Evidence/CrossSegment.antt =====
-- packages/evidence/src/cross-segment.ts: the segment hash and the continuity of two segments. The
-- text of a failure is left out.
pub mod Exact
use external_database_audit.Base.{
  ℕ, zero, suc, ◌+◌, String, Bool, true, false, not, Option, none, some, List, [], ◌∷◌, ◌++◌,
  str_eq, ◌==◌, if◌then◌else◌,
}
use external_database_audit.Base.Dict.{is_some}
use external_database_audit.Base.Platform.{Platform}
use external_database_audit.Base.Result.{Result, ok, err, ◌>>=◌, ◌>>◌}
use external_database_audit.Base.Text.{◌+++◌}
use external_database_audit.Canonical.Json.{CanonicalError}
use external_database_audit.Canonical.Hash.{assert_hash_token}
use external_database_audit.Evidence.{SegmentManifest, SegmentHead, PreviousSegmentRef}

abbrev pub genesis_previous_segment_hash : String
genesis_previous_segment_hash =
    "sha256:0000000000000000000000000000000000000000000000000000000000000000"

pub data CrossSegmentFailureRule : Type 0 where
  genesis missing_previous db_id sequence : CrossSegmentFailureRule
  previous_segment previous_segment_hash row_boundary : CrossSegmentFailureRule

pub record CrossSegmentVerification : Type 0 where
  pub passed : Bool
  pub genesis : Bool
  pub failures : List CrossSegmentFailureRule

-- what a computation of a segment hash throws
pub data HashError : Type 0 where
  bad_token : CanonicalError → HashError
  no_previous_segment : HashError

abbrev lift {ℓ} : {A : Type ℓ} → Result CanonicalError A → Result HashError A
lift (ok a) = ok a
lift (err e) = err (bad_token e)

-- `if (!test) failures.push({ rule })`
abbrev pub unless : Bool → CrossSegmentFailureRule → List CrossSegmentFailureRule
unless true rule = []
unless false rule = rule ∷ []

abbrev pub is_empty : List CrossSegmentFailureRule → Bool
is_empty [] = true
is_empty (f ∷ fs) = false

abbrev verdict : Bool → List CrossSegmentFailureRule → CrossSegmentVerification
verdict at_genesis failures = record {
  passed = is_empty failures;
  genesis = at_genesis;
  failures = failures;
}

module _ (js : Platform) where
  open js use {sha256_hex}

  unfoldable pub compute_segment_hash : String → String → String → Result CanonicalError String
  compute_segment_hash manifest_hash last_row_hash previous = do
    assert_hash_token manifest_hash
    assert_hash_token last_row_hash
    assert_hash_token previous
    ok ("sha256:" +++ sha256_hex (manifest_hash +++ last_row_hash +++ previous))

  -- `previousSegmentHashOf`
  unfoldable pub previous_segment_hash_of : SegmentManifest → Result HashError String
  previous_segment_hash_of m = elim m.segment_sequence [
    | zero ↦ ok genesis_previous_segment_hash
    | suc n ↦ elim m.previous_segment [
      | none ↦ err no_previous_segment
      | some p ↦ ok p.segment_hash
    ]
  ]

  unfoldable pub segment_hash_of : SegmentManifest → Result HashError String
  segment_hash_of m = do
    previous ← previous_segment_hash_of m
    lift (compute_segment_hash m.manifest_hash m.last_row_hash previous)

  unfoldable pub derive_segment_head : SegmentManifest → Result HashError SegmentHead
  derive_segment_head m = do
    hash ← segment_hash_of m
    ok (record {
      db_id = m.db_id;
      segment_id = m.segment_id;
      segment_sequence = m.segment_sequence;
      segment_hash = hash;
      last_row_hash = m.last_row_hash;
    })

  -- the checks of `current.previous_segment` against the prior manifest
  unfoldable pub link_failures :
      Option PreviousSegmentRef → SegmentManifest → Result HashError (List CrossSegmentFailureRule)
  link_failures none previous = ok (previous_segment ∷ [])
  link_failures (some ps) previous = do
    recomputed ← segment_hash_of previous
    ok (
        unless (str_eq ps.segment_id previous.segment_id) previous_segment
        ++ (unless (ps.segment_sequence == previous.segment_sequence) previous_segment
            ++ unless (str_eq ps.segment_hash recomputed) previous_segment_hash))

  -- An error is what `segmentHashOf(previous)` throws.
  unfoldable pub verify_cross_segment :
      SegmentManifest → String → Option SegmentManifest → Result HashError CrossSegmentVerification
  verify_cross_segment current first_prev_row_hash previous =
      if current.segment_sequence == 0
      then ok (
          verdict true (
            unless (not (is_some previous)) genesis
            ++ unless (not (is_some current.previous_segment)) genesis))
      else elim previous [
        | none ↦ ok (verdict false (missing_previous ∷ []))
        | some p ↦ do
          links ← link_failures current.previous_segment p
          ok (
              verdict false (
                unless (str_eq current.db_id p.db_id) db_id
                ++ (unless (current.segment_sequence == p.segment_sequence + 1) sequence
                    ++ (links
                        ++ unless (str_eq first_prev_row_hash p.last_row_hash) row_boundary))))
      ]
