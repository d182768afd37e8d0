-- ===== src/Writer/Seal.antt =====
-- `SegmentSealer` of services/evidence-writer/src/sealer.ts over the writer of Append. A seal returns its
-- outcome, or throws what a call outside of its `try` blocks throws, and leaves what it wrote. The texts
-- of details and alarms are left out.
pub mod Passed
pub mod Stored
pub mod FailClosed
pub mod Succeeds
use external_database_audit.Base.{
  ℕ, zero, suc, ◌+◌, String, Bool, true, false, not, Option, none, some, List, [], ◌∷◌, ◌++◌,
  str_eq, if◌then◌else◌,
}
use external_database_audit.Base.Result.{Result, ok, err, is_ok, ◌>>=◌}
use external_database_audit.Base.Text.{◌+++◌}
use external_database_audit.Canonical.Hash.{genesis_row_hash}
use external_database_audit.Canonical.Json.{Json, CanonicalError, str, serialize_canonical}
use external_database_audit.Cce.{Cce}
use external_database_audit.Cce.Core.{object}
use external_database_audit.Evidence.{
  SegmentObjectRef, SegmentInput, SegmentManifest, SegmentHead, PreviousSegmentRef,
}
use external_database_audit.Evidence.Chain.{verify_segment_chain}
use external_database_audit.Evidence.CrossSegment.{
  HashError, CrossSegmentVerification, verify_cross_segment, derive_segment_head,
}
use external_database_audit.Evidence.Manifest.{
  ManifestError, build_segment_manifest, manifest_members,
}
use external_database_audit.Worm.{Store, WormError, compliance, put_immutable}
use external_database_audit.Writer.Append.{
  AppendOutcome, written, to_dead_letters, Appended, WriterDeps, Sinks, Clock, cce, append,
}
use external_database_audit.Writer.Establish.{establish_chain}

pub data SealAlarmKind : Type 0 where
  verification_alarm write_alarm : SealAlarmKind

-- every alarm is critical
pub record SealAlarm : Type 0 where
  pub kind : SealAlarmKind
  pub at : String
  pub segment_id : String

pub record PreviousSealed : Type 0 where
  pub manifest : SegmentManifest
  pub head : SegmentHead

pub data Stage : Type 0 where
  intra_chain cross_segment manifest : Stage

pub data WriteFailure : Type 0 where
  not_written key_mismatch : (seq : ℕ) → WriteFailure
  manifest_not_written : WriteFailure

pub data SealOutcome : Type 0 where
  sealed :
      SegmentHead
      → SegmentManifest
      → (manifest_object_key : String) → (object_keys : List String) → SealOutcome
  verification_failed : Stage → SealOutcome
  write_failed : WriteFailure → SealOutcome

-- what is thrown outside of the `try` blocks; `no_entry` is an object without its entry in the list
pub data SealThrown : Type 0 where
  canonical : CanonicalError → SealThrown
  hash : HashError → SealThrown
  no_entry : SealThrown

-- what the sealer writes to, and what it emitted
pub record Sealing : Type 0 where
  pub sinks : Sinks
  pub heads : List SegmentHead
  pub alarms : List SealAlarm

pub record SealerDeps : Type 0 where
  pub writer : WriterDeps
  pub open writer use {js, encode}
  pub validate_manifest : SegmentManifest → Bool

unfoldable pub manifest_object_key : String → String → String
manifest_object_key db segment = db +++ "/" +++ segment +++ "/manifest.json"

unfoldable pub sealed_manifest_json : SegmentManifest → Json
unfolding manifest_members
sealed_manifest_json m =
    object (manifest_members m.core ++ ("manifest_hash", str m.manifest_hash) ∷ [])

abbrev pub lifted {ℓ} : {A E : Type ℓ} → (E → SealThrown) → Result E A → Result SealThrown A
lifted f (ok a) = ok a
lifted f (err e) = err (f e)

-- what the verifications before the first write come to
pub data Checked : Type 0 where
  failing : Stage → Checked
  passing : SegmentInput → SegmentManifest → SegmentHead → Checked

-- the row hash that the chain starts from, and the link to the segment before; a first segment has no
-- link, and another one needs the segment before it
unfoldable pub boundary_of : ℕ → Option PreviousSealed → Option (String × Option PreviousSegmentRef)
boundary_of zero previous = some (genesis_row_hash, none)
boundary_of (suc n) none = none
boundary_of (suc n) (some p) = some (
  p.head.last_row_hash,
  some (record {
    segment_id = p.manifest.segment_id;
    segment_sequence = p.manifest.segment_sequence;
    segment_hash = p.head.segment_hash;
  }),
)

abbrev pub manifest_of : Option PreviousSealed → Option SegmentManifest
manifest_of none = none
manifest_of (some p) = some p.manifest

module _ (d : SealerDeps) where
  unfoldable pub check_crossed :
      SegmentInput → SegmentManifest → CrossSegmentVerification → Result SealThrown Checked
  check_crossed chained m v =
      if v.passed
      then (do head ← lifted hash (derive_segment_head d.js m); ok (passing chained m head))
      else ok (failing cross_segment)

  unfoldable pub check_built :
      SegmentInput
      → String
      → Option PreviousSealed
      → Result ManifestError SegmentManifest
      → Result SealThrown Checked
  unfolding check_crossed
  check_built chained boundary previous (err e) = ok (failing manifest)
  check_built chained boundary previous (ok m) = do
    v ← lifted hash (verify_cross_segment d.js m boundary (manifest_of previous))
    check_crossed chained m v

  unfoldable pub check_chained :
      SegmentInput
      → String
      → Option PreviousSegmentRef
      → Option PreviousSealed
      → String
      → Result SealThrown Checked
  unfolding check_built
  check_chained chained boundary link previous at =
      let chain = verify_segment_chain d.js (record {
        object_list = chained.object_list;
        object_hash_list = chained.object_hash_list;
        objects = chained.objects;
      }) in
      let built = build_segment_manifest d.js d.validate_manifest chained at link in
      if chain.passed then check_built chained boundary previous built else ok (failing intra_chain)

  unfoldable pub check_bounded :
      SegmentInput
      → Option PreviousSealed
      → String
      → Option (String × Option PreviousSegmentRef)
      → Result SealThrown Checked
  unfolding check_chained
  check_bounded seg previous at none = ok (failing cross_segment)
  check_bounded seg previous at (some (boundary, link)) = do
    chained ← lifted canonical (establish_chain d.js seg boundary)
    check_chained chained boundary link previous at

  -- the steps of `seal` before it writes
  unfoldable pub check_segment :
      SegmentInput → Option PreviousSealed → String → Result SealThrown Checked
  unfolding boundary_of check_bounded
  check_segment seg previous at =
      check_bounded seg previous at (boundary_of seg.segment_sequence previous)

pub data WriteResult : Type 0 where
  wrote : (object_keys : List String) → WriteResult
  stopped : WriteFailure → WriteResult
  missing_entry : WriteResult

abbrev pub with_key : String → WriteResult × Sinks → WriteResult × Sinks
with_key key (wrote keys, s) = (wrote (key ∷ keys), s)
with_key key (stopped f, s) = (stopped f, s)
with_key key (missing_entry, s) = (missing_entry, s)

-- what the loop does with an answer at the index `i`, where `next` goes on
abbrev pub on_append :
    ℕ
    → (List SegmentObjectRef → Sinks → WriteResult × Sinks)
    → List SegmentObjectRef
    → AppendOutcome × Sinks
    → WriteResult × Sinks
on_append i next refs (to_dead_letters item reason, t) = (stopped (not_written i), t)
on_append i next [] (written a, t) = (missing_entry, t)
on_append i next (r ∷ refs) (written a, t) =
    let rest = with_key a.worm_object_key (next refs t) in
    if str_eq a.worm_object_key r.worm_object_key then rest else (stopped (key_mismatch i), t)

-- the alarm of an outcome that is no sealed segment
abbrev pub raised : SealAlarmKind → SegmentInput → String → Sealing → Sealing
raised kind seg at s = record s {
  alarms = s.alarms ++ record { kind = kind; at = at; segment_id = seg.segment_id } ∷ [];
}

module _ (d : SealerDeps) (clock : Clock) where
  -- the loop over the objects, from the index `i`
  unfoldable pub write_objects :
      String → ℕ → List SegmentObjectRef → List Cce → Sinks → WriteResult × Sinks
  write_objects segment_id i refs [] s = (wrote [], s)
  write_objects segment_id i refs (c ∷ cs) s =
      on_append i (λ rest t. write_objects segment_id (suc i) rest cs t) refs
        (append d.writer (cce c) (record { segment_id = segment_id; seq = i }) clock s)

  -- the `try` around the write of the manifest; whether it was written, and the store
  unfoldable pub put_manifest : String → Result CanonicalError String → Store → Bool × Store
  unfolding put_immutable
  put_manifest key (err e) worm = (false, worm)
  put_manifest key (ok text) worm =
      let (r, left) = put_immutable key (d.encode text) compliance worm in (is_ok r, left)

  unfoldable pub write_manifest :
      SegmentInput
      → SegmentManifest
      → SegmentHead
      → String
      → List String
      → Bool × Store
      → Sealing
      → Result SealThrown SealOutcome × Sealing
  write_manifest chained m head at keys (true, worm) s = (
    ok (sealed head m (manifest_object_key chained.db_id chained.segment_id) keys),
    record s { sinks = record s.sinks { worm = worm }; heads = s.heads ++ head ∷ [] },
  )
  write_manifest chained m head at keys (false, worm) s = (
    ok (write_failed manifest_not_written),
    raised write_alarm chained at (record s { sinks = record s.sinks { worm = worm } }),
  )

  unfoldable pub write_after :
      SegmentInput
      → SegmentManifest
      → SegmentHead
      → String
      → Sealing
      → WriteResult × Sinks
      → Result SealThrown SealOutcome × Sealing
  unfolding put_manifest write_manifest manifest_object_key sealed_manifest_json
  write_after chained m head at s (missing_entry, t) = (err no_entry, record s { sinks = t })
  write_after chained m head at s (stopped f, t) =
      (ok (write_failed f), raised write_alarm chained at (record s { sinks = t }))
  write_after chained m head at s (wrote keys, t) =
      write_manifest chained m head at keys
        (put_manifest (manifest_object_key chained.db_id chained.segment_id)
          (serialize_canonical d.js (sealed_manifest_json m)) t.worm)
        (record s { sinks = t })

  -- the writes of a segment that was checked
  unfoldable pub write_checked :
      SegmentInput
      → String
      → Sealing
      → Result SealThrown Checked
      → Result SealThrown SealOutcome × Sealing
  unfolding write_objects write_after
  write_checked seg at s (err e) = (err e, s)
  write_checked seg at s (ok (failing stage)) =
      (ok (verification_failed stage), raised verification_alarm seg at s)
  write_checked seg at s (ok (passing chained m head)) =
      write_after chained m head at s
        (write_objects chained.segment_id 0 chained.object_list chained.objects s.sinks)

  unfoldable pub seal :
      SegmentInput
      → Option PreviousSealed
      → String
      → Sealing
      → Result SealThrown SealOutcome × Sealing
  unfolding check_segment write_checked
  seal seg previous at s = write_checked seg at s (check_segment d seg previous at)
