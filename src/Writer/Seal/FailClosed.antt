-- ===== src/Writer/Seal/FailClosed.antt =====
-- What a seal leaves on each of its outcomes.
use external_database_audit.Base.{
  ◌≡◌, refl, sym, String, Bool, true, false, Option, List, [], ◌∷◌, ◌++◌,
}
use mathlib.Core.List.{append-nil}
use external_database_audit.Base.Result.{Result, ok, err}
use external_database_audit.Canonical.Json.{serialize_canonical}
use external_database_audit.Evidence.{SegmentInput, SegmentManifest, SegmentHead}
use external_database_audit.Worm.{Store}
use external_database_audit.Writer.Append.{Sinks, Clock}
use external_database_audit.Writer.Seal.{
  PreviousSealed, SealAlarm, verification_alarm, write_alarm, SealThrown, SealOutcome, sealed,
  verification_failed, write_failed, Checked, failing, passing, Sealing, SealerDeps, WriteResult,
  wrote, stopped, missing_entry, manifest_object_key, sealed_manifest_json, check_segment,
  write_manifest, write_after, write_checked, seal,
}
use external_database_audit.Writer.Seal.Stored.{
  Keeps, Keeps-refl, Keeps-trans, write_objects-Keeps, put_manifest-Keeps,
}

-- the heads that an outcome emits
abbrev pub emitted_by : Result SealThrown SealOutcome → List SegmentHead
emitted_by (ok (sealed head m key keys)) = head ∷ []
emitted_by (ok (verification_failed stage)) = []
emitted_by (ok (write_failed f)) = []
emitted_by (err e) = []

-- the alarms of an outcome at an instant
abbrev pub Alarms :
    String → Result SealThrown SealOutcome → List SealAlarm → List SealAlarm → Type 0
Alarms at (ok (sealed head m key keys)) old new = new ≡ old
Alarms at (err e) old new = new ≡ old
Alarms at (ok (verification_failed stage)) old new =
    (id : String) × (new
      ≡ old ++ record { kind = verification_alarm; at = at; segment_id = id } ∷ [])
Alarms at (ok (write_failed f)) old new =
    (id : String) × (new ≡ old ++ record { kind = write_alarm; at = at; segment_id = id } ∷ [])

-- a failed verification has written nothing
abbrev pub Untouched : Result SealThrown SealOutcome → Sinks → Sinks → Type 0
Untouched (ok (verification_failed stage)) s t = t ≡ s
Untouched (ok (sealed head m key keys)) s t = Unit
Untouched (ok (write_failed f)) s t = Unit
Untouched (err e) s t = Unit

pub record FailsClosed (at : String) (s : Sealing) (r : Result SealThrown SealOutcome × Sealing)
    : Type 0 where
  pub heads : r.1.heads ≡ s.heads ++ emitted_by r.0
  pub alarms : Alarms at r.0 s.alarms r.1.alarms
  pub untouched : Untouched r.0 s.sinks r.1.sinks
  pub keeps : Keeps s.sinks.worm r.1.sinks.worm

module _ (d : SealerDeps) (clock : Clock) (at : String) (s : Sealing) where
  write_manifest-FailsClosed :
      (chained : SegmentInput) (m : SegmentManifest) (head : SegmentHead) (keys : List String)
      (t : Sinks) (q : Bool × Store)
      → Keeps s.sinks.worm q.1
      → FailsClosed at s (write_manifest d clock chained m head at keys q (record s { sinks = t }))
  unfolding write_manifest
  write_manifest-FailsClosed chained m head keys t (true, worm) k = record {
    heads = refl;
    alarms = refl;
    untouched = tt;
    keeps = k;
  }
  write_manifest-FailsClosed chained m head keys t (false, worm) k = record {
    heads = sym (append-nil s.heads);
    alarms = (chained.segment_id, refl);
    untouched = tt;
    keeps = k;
  }

  write_after-FailsClosed :
      (chained : SegmentInput) (m : SegmentManifest) (head : SegmentHead) (q : WriteResult × Sinks)
      → Keeps s.sinks.worm q.1.worm
      → FailsClosed at s (write_after d clock chained m head at s q)
  unfolding write_after
  write_after-FailsClosed chained m head (missing_entry, t) k = record {
    heads = sym (append-nil s.heads);
    alarms = refl;
    untouched = tt;
    keeps = k;
  }
  write_after-FailsClosed chained m head (stopped f, t) k = record {
    heads = sym (append-nil s.heads);
    alarms = (chained.segment_id, refl);
    untouched = tt;
    keeps = k;
  }
  write_after-FailsClosed chained m head (wrote keys, t) k =
      write_manifest-FailsClosed chained m head keys t _ (
        Keeps-trans s.sinks.worm t.worm _ k (
          put_manifest-Keeps d clock (manifest_object_key chained.db_id chained.segment_id)
            (serialize_canonical d.js (sealed_manifest_json m)) t.worm))

  write_checked-FailsClosed :
      (seg : SegmentInput) (r : Result SealThrown Checked)
      → FailsClosed at s (write_checked d clock seg at s r)
  unfolding write_checked
  write_checked-FailsClosed seg (err e) = record {
    heads = sym (append-nil s.heads);
    alarms = refl;
    untouched = tt;
    keeps = Keeps-refl s.sinks.worm;
  }
  write_checked-FailsClosed seg (ok (failing stage)) = record {
    heads = sym (append-nil s.heads);
    alarms = (seg.segment_id, refl);
    untouched = refl;
    keeps = Keeps-refl s.sinks.worm;
  }
  write_checked-FailsClosed seg (ok (passing chained m head)) =
      write_after-FailsClosed chained m head _ (
        write_objects-Keeps d clock chained.segment_id 0 chained.object_list chained.objects
          s.sinks)

  -- A seal fails closed: it emits the head of a segment that it answers as sealed, and of no other;
  -- it raises one critical alarm at the instant of the seal when the verification or a write fails,
  -- and none otherwise; a failed verification has changed neither the store nor the queue; and
  -- whatever the outcome, even a thrown error, every object that was stored stays as it is.
  pub seal-FailsClosed :
      (seg : SegmentInput) (previous : Option PreviousSealed)
      → FailsClosed at s (seal d clock seg previous at s)
  unfolding seal
  seal-FailsClosed seg previous = write_checked-FailsClosed seg (check_segment d seg previous at)
