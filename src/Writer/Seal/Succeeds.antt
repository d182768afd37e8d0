-- ===== src/Writer/Seal/Succeeds.antt =====
-- When `seal` of services/evidence-writer/src/sealer.ts answers a sealed segment.
use external_database_audit.Base.{
  ℕ, suc, ◌≡◌, ◌≢◌, ◌∙◌, refl, sym, ap, subst, String, true, Option, none, List, [], ◌∷◌, ◌++◌, map,
  arith, eq_iff, if◌then◌else◌,
}
use external_database_audit.Base.Dict
use external_database_audit.Base.Dict.{get-set}
use external_database_audit.Base.Lists.{All}
use external_database_audit.Base.Result.{Result, ok, err}
use external_database_audit.Canonical.Json.{serialize_canonical}
use external_database_audit.Cce.{Cce}
use external_database_audit.Evidence.{SegmentObjectRef, SegmentInput, SegmentManifest, SegmentHead}
use external_database_audit.Evidence.CrossSegment.{
  HashError, CrossSegmentVerification, verify_cross_segment,
}
use external_database_audit.Evidence.CrossSegment.Exact.{has_passed}
use external_database_audit.Worm.{StoredObject, Store, compliance, born}
use external_database_audit.Writer.Append.{EvidencePlacement, written, Appended, Sinks, Clock}
use external_database_audit.Writer.Append.Sound.{IsSound, key_of, written_for, stored}
use external_database_audit.Writer.Append.Outcome.{append_sound, put_immutable-free}
use external_database_audit.Writer.Seal.{
  PreviousSealed, sealed, passing, Sealing, SealerDeps, WriteResult, wrote, stopped, key_mismatch,
  with_key, on_append, manifest_of, manifest_object_key, sealed_manifest_json, check_crossed,
  check_built, check_chained, check_bounded, check_segment, write_objects, put_manifest,
  write_manifest, write_after, write_checked, seal,
}
use external_database_audit.Writer.Seal.Passed.{IsChecked}

-- no object is stored under the keys, and no two of them are the same
abbrev pub AreFree : List String → Store → Type 0
AreFree [] s = Unit
AreFree (k ∷ ks) s = (Dict.get k s.objects ≡ none) × All (λ j. k ≢ j) ks × AreFree ks s

free-set :
    (k : String) (o : StoredObject) (ks : List String) (s : Store)
    → All (λ j. k ≢ j) ks
    → AreFree ks s
    → AreFree ks (record s { objects = Dict.set k o s.objects })
free-set k o [] s h f = tt
free-set k o (j ∷ js) s (differs, h) (free, apart, f) =
    (ground (arith, get-set k j o s.objects, eq_iff k j), apart, free-set k o js s h f)

module _ (d : SealerDeps) (segment_id : String) where
  -- every object is sound for its place, and has the key of the place in the list
  abbrev pub AreSound : ℕ → List SegmentObjectRef → List Cce → Type 0
  AreSound i refs [] = refs ≡ []
  AreSound i [] (c ∷ cs) = ⊥
  AreSound i (r ∷ refs) (c ∷ cs) =
      ((text : String) × IsSound d.writer c (record { segment_id = segment_id; seq = i }) text
        × (r.worm_object_key ≡ key_of c (record { segment_id = segment_id; seq = i })))
      × AreSound (suc i) refs cs

  abbrev pub keys_of : List SegmentObjectRef → List String
  keys_of refs = map (λ r. r.worm_object_key) refs

  on_append-same :
      (i : ℕ) (next : List SegmentObjectRef → Sinks → WriteResult × Sinks) (r : SegmentObjectRef)
      (refs : List SegmentObjectRef) (a : Appended) (t : Sinks)
      → a.worm_object_key ≡ r.worm_object_key
      → on_append i next (r ∷ refs) (written a, t) ≡ with_key a.worm_object_key (next refs t)
  on_append-same i next r refs a t same =
      ap
        (λ b. if b then with_key a.worm_object_key (next refs t) else (stopped (key_mismatch i), t))
        ((eq_iff a.worm_object_key r.worm_object_key).1 same)

  write_objects-AreSound :
      (clock : Clock) (i : ℕ) (refs : List SegmentObjectRef) (cs : List Cce) (more : List String)
      (s : Sinks)
      → AreSound i refs cs
      → AreFree (keys_of refs ++ more) s.worm
      → (t : Sinks) × (write_objects d clock segment_id i refs cs s ≡ (wrote (keys_of refs), t))
        × AreFree more t.worm
  unfolding write_objects
  write_objects-AreSound clock i [] [] more s h f = (s, refl, f)
  write_objects-AreSound clock i (r ∷ refs) [] more s h f = absurd (cc)
  write_objects-AreSound clock i [] (c ∷ cs) more s h f = absurd h
  write_objects-AreSound clock i (r ∷ refs) (c ∷ cs) more s ((text, sound, keyed), h)
        (free, apart, f) =
      let place : EvidencePlacement = record { segment_id = segment_id; seq = i } in
      let next : List SegmentObjectRef → Sinks → WriteResult × Sinks =
        λ rest t. write_objects d clock segment_id (suc i) rest cs t in
      let left : Sinks = stored d.writer c place text s in
      let appended =
        append_sound d.writer c place clock s text sound
          (ap (λ k. Dict.get k s.worm.objects) (sym keyed) ∙ free) in
      let remaining : AreFree (keys_of refs ++ more) left.worm =
        subst
          (λ k. AreFree (keys_of refs ++ more) (record s.worm {
            objects = Dict.set k (born (d.encode text) compliance s.worm) s.worm.objects;
          }))
          keyed (free-set r.worm_object_key _ (keys_of refs ++ more) s.worm apart f) in
      let (t, later, free_more) =
        write_objects-AreSound clock (suc i) refs cs more left h remaining in
      (
        t,
        ap (on_append i next (r ∷ refs)) appended
            ∙ on_append-same i next r refs (written_for d.writer c place) left (sym keyed)
            ∙ ap (with_key (key_of c place)) later
            ∙ ap (λ k. (wrote (k ∷ keys_of refs), t)) (sym keyed),
        free_more,
      )

module _ (d : SealerDeps) where
  crossed_with :
      (r : Result HashError CrossSegmentVerification)
      → has_passed r ≡ true
      → (v : CrossSegmentVerification) × (r ≡ ok v) × (v.passed ≡ true)
  crossed_with (ok v) e = (v, refl, e)
  crossed_with (err x) e = absurd (cc)

  IsChecked-check_segment :
      (seg : SegmentInput) (previous : Option PreviousSealed) (at : String) (chained : SegmentInput)
      (m : SegmentManifest) (head : SegmentHead)
      → IsChecked d seg previous at chained m head
      → check_segment d seg previous at ≡ ok (passing chained m head)
  unfolding check_segment check_bounded check_chained check_built check_crossed
  IsChecked-check_segment seg previous at chained m head h =
      let (v, verified, fine) =
        crossed_with (verify_cross_segment d.js m h.boundary (manifest_of previous)) h.crossed in
      ground (arith, h.bounded, h.established, h.chain_passed, h.built, verified, fine, h.headed)

  -- what a segment, the segment before it and the store have to be for a seal
  pub record IsSealable (seg : SegmentInput) (previous : Option PreviousSealed) (at : String)
      (s : Sealing) (chained : SegmentInput) (m : SegmentManifest) (head : SegmentHead)
      : Type 0 where
    pub checked : IsChecked d seg previous at chained m head
    pub sound : AreSound d chained.segment_id 0 chained.object_list chained.objects
    pub manifest_text : String
    pub serializes : serialize_canonical d.js (sealed_manifest_json m) ≡ ok manifest_text
    pub free :
        AreFree
          (map (λ r. r.worm_object_key) chained.object_list
            ++ manifest_object_key chained.db_id chained.segment_id ∷ [])
          s.sinks.worm

  -- A segment is sealed when it passes the verifications, its objects are sound for their places, its
  -- manifest has a canonical text, and the keys of the objects and of the manifest are free and
  -- different.
  pub seal_succeeds :
      (clock : Clock) (seg : SegmentInput) (previous : Option PreviousSealed) (at : String)
      (s : Sealing) (chained : SegmentInput) (m : SegmentManifest) (head : SegmentHead)
      → IsSealable seg previous at s chained m head
      → (t : Sealing) × (seal d clock seg previous at s ≡ (
        ok (
            sealed head m
              (manifest_object_key chained.db_id chained.segment_id)
              (map (λ r. r.worm_object_key) chained.object_list)),
        t,
      ))
  unfolding seal write_checked write_after write_manifest put_manifest
  seal_succeeds clock seg previous at s chained m head h =
      let key = manifest_object_key chained.db_id chained.segment_id in
      let (t, wrote_all, (free, apart, none_left)) =
        write_objects-AreSound d chained.segment_id clock 0 chained.object_list chained.objects _
          s.sinks h.sound h.free in
      let checks = IsChecked-check_segment seg previous at chained m head h.checked in
      let put = put_immutable-free key (d.encode h.manifest_text) t.worm free in
      let left : Sealing = record s {
        sinks = record t {
          worm = record t.worm {
            objects =
                Dict.set key (born (d.encode h.manifest_text) compliance t.worm) t.worm.objects;
          };
        };
        heads = s.heads ++ head ∷ [];
      } in
      (left, ground (arith, checks, wrote_all, h.serializes, put))
