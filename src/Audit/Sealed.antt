-- ===== src/Audit/Sealed.antt =====
-- What the sealer answers as sealed.
use external_database_audit.Base.{
  ◌≡◌, ◌∙◌, refl, sym, ap, ap₂, subst, String, Bool, true, false, Option, List, [], ◌∷◌, ◌++◌, map,
  arith,
}
use external_database_audit.Base.Result.{Result, ok, err}
use external_database_audit.Canonical.Json.{serialize_canonical}
use external_database_audit.Evidence.{SegmentInput, SegmentManifest, SegmentHead, ManifestCore}
use external_database_audit.Evidence.Manifest.{core_with}
use external_database_audit.Evidence.Manifest.Built.{build_segment_manifest-eq-ok_iff}
use external_database_audit.Verifier.Segments.{recompute_segment}
use external_database_audit.Verifier.Accepts.{all_pass, built-accepts}
use external_database_audit.Worm.{Store}
use external_database_audit.Writer.Append.{Sinks, Clock}
use external_database_audit.Writer.Seal.{
  PreviousSealed, SealThrown, sealed, Checked, failing, passing, Sealing, SealerDeps, WriteResult,
  wrote, stopped, missing_entry, manifest_object_key, sealed_manifest_json, check_segment,
  write_objects, put_manifest, write_manifest, write_after, write_checked, seal,
}
use external_database_audit.Writer.Seal.Passed.{IsChecked, check_segment-IsChecked}
use external_database_audit.Writer.Seal.Stored.{
  Keeps, Keeps-trans, Holds, AreStored, AreStored-Keeps, write_objects-Keeps, write_objects-wrote,
  put_manifest-Keeps, put_manifest-true,
}

module _ (d : SealerDeps) (clock : Clock) where
  -- what the answer of a sealed segment stands for
  pub record IsSealed (seg : SegmentInput) (previous : Option PreviousSealed) (at : String)
      (s : Sealing) (head : SegmentHead) (m : SegmentManifest) (manifest_key : String)
      (keys : List String) (t : Sealing) : Type 0 where
    pub chained : SegmentInput
    pub checked : IsChecked d seg previous at chained m head
    pub accepted :
        recompute_segment d.js d.validate_manifest
          (record { manifest = m; objects = chained.objects })
        ≡ ok all_pass
    pub stored : AreStored d clock m.segment_id 0 m.object_list chained.objects t.sinks.worm
    pub listed : keys ≡ map (λ r. r.worm_object_key) m.object_list
    pub manifest_text : String
    pub manifest_serializes : serialize_canonical d.js (sealed_manifest_json m) ≡ ok manifest_text
    pub manifest_held : Holds t.sinks.worm manifest_key (d.encode manifest_text)
    pub keyed : manifest_key ≡ manifest_object_key m.db_id m.segment_id
    pub keeps : Keeps s.sinks.worm t.sinks.worm
    pub same_queue : t.sinks.dlq ≡ s.sinks.dlq
    pub emitted : t.heads ≡ s.heads ++ head ∷ []
    pub no_alarm : t.alarms ≡ s.alarms

  module _ (seg : SegmentInput) (previous : Option PreviousSealed) (at : String) (s : Sealing)
      (head : SegmentHead) (m : SegmentManifest) (manifest_key : String) (keys : List String)
      (t : Sealing) where
    write_manifest-sealed :
        (chained : SegmentInput) (made : SegmentManifest) (its_head : SegmentHead)
        (its_keys : List String) (q : Bool × Store) (u : Sealing)
        → write_manifest d clock chained made its_head at its_keys q u
          ≡ (ok (sealed head m manifest_key keys), t)
        → (q.0 ≡ true)
          × (its_head ≡ head)
          × (made ≡ m)
          × (its_keys ≡ keys)
          × (manifest_key ≡ manifest_object_key chained.db_id chained.segment_id)
          × (t ≡ record u { sinks = record u.sinks { worm = q.1 }; heads = u.heads ++ head ∷ [] })
    unfolding write_manifest
    write_manifest-sealed chained made its_head its_keys (true, worm) u e =
        (refl, cc, cc, cc, cc, cc)
    write_manifest-sealed chained made its_head its_keys (false, worm) u e = absurd (cc)

    -- the writes that end in a sealed segment
    record HasWritten (chained : SegmentInput) (made : SegmentManifest) (its_head : SegmentHead)
        (q : WriteResult × Sinks) : Type 0 where
      left : Sinks
      worm : Store
      objects : q ≡ (wrote keys, left)
      manifest :
          put_manifest d clock
            (manifest_object_key chained.db_id chained.segment_id)
            (serialize_canonical d.js (sealed_manifest_json made))
            left.worm
          ≡ (true, worm)
      same_head : its_head ≡ head
      same_manifest : made ≡ m
      keyed : manifest_key ≡ manifest_object_key chained.db_id chained.segment_id
      state : t ≡ record s { sinks = record left { worm = worm }; heads = s.heads ++ head ∷ [] }

    write_after-sealed :
        (chained : SegmentInput) (made : SegmentManifest) (its_head : SegmentHead)
        (q : WriteResult × Sinks)
        → write_after d clock chained made its_head at s q
          ≡ (ok (sealed head m manifest_key keys), t)
        → HasWritten chained made its_head q
    unfolding write_after
    write_after-sealed chained made its_head (missing_entry, u) e = absurd (cc)
    write_after-sealed chained made its_head (stopped f, u) e = absurd (cc)
    write_after-sealed chained made its_head (wrote its_keys, u) e =
        let put =
          put_manifest d clock (manifest_object_key chained.db_id chained.segment_id)
            (serialize_canonical d.js (sealed_manifest_json made)) u.worm in
        let (put_it, same_head, same_manifest, same_keys, keyed, state) =
          write_manifest-sealed chained made its_head its_keys put (record s { sinks = u }) e in
        record {
          left = u;
          worm = put.1;
          objects = ap (λ ks. (wrote ks, u)) same_keys;
          manifest = ap (λ b. (b, put.1)) put_it;
          same_head = same_head;
          same_manifest = same_manifest;
          keyed = keyed;
          state = state;
        }

    IsSealed-written :
        (chained : SegmentInput)
        → IsChecked d seg previous at chained m head
        → HasWritten chained m head
            (write_objects d clock chained.segment_id 0 chained.object_list chained.objects s.sinks)
        → IsSealed seg previous at s head m manifest_key keys t
    unfolding core_with
    IsSealed-written chained checked h =
        let (consistent, linked, same, hashed, valid) =
          (build_segment_manifest-eq-ok_iff d.js d.validate_manifest chained at checked.link m).0
            checked.built in
        let (stored, listed, queue) =
          write_objects-wrote d clock chained.segment_id 0 chained.object_list chained.objects
            s.sinks keys h.left (omega (arith, consistent.objects)) h.objects in
        let manifest_kept : Keeps h.left.worm h.worm =
          subst (λ (q : Bool × Store). Keeps h.left.worm q.1) h.manifest
            (put_manifest-Keeps d clock _ _ h.left.worm) in
        let objects_kept : Keeps s.sinks.worm h.left.worm =
          subst (λ (q : WriteResult × Sinks). Keeps s.sinks.worm q.1.worm) h.objects
            (write_objects-Keeps d clock chained.segment_id 0 chained.object_list chained.objects
              s.sinks) in
        let (text, serializes, held) =
          put_manifest-true d clock _ _ h.left.worm h.worm h.manifest in
        let worm_same : h.worm ≡ t.sinks.worm = sym (ap (λ (v : Sealing). v.sinks.worm) h.state) in
        record {
          chained = chained;
          checked = checked;
          accepted =
              built-accepts d.js d.validate_manifest chained at checked.link m checked.chain_passed
                checked.built;
          stored =
              subst
                (λ (k : ManifestCore).
                  AreStored d clock k.segment_id 0 k.object_list chained.objects t.sinks.worm)
                (sym same)
                (subst (AreStored d clock chained.segment_id 0 chained.object_list chained.objects)
                  worm_same
                  (AreStored-Keeps d clock chained.segment_id 0 chained.object_list chained.objects
                    h.left.worm h.worm manifest_kept stored));
          listed =
              listed
              ∙ ap (λ (k : ManifestCore). map (λ r. r.worm_object_key) k.object_list) (sym same);
          manifest_text = text;
          manifest_serializes = serializes;
          manifest_held =
              subst (λ v. Holds v manifest_key (d.encode text)) worm_same
                (subst (λ k. Holds h.worm k (d.encode text)) (sym h.keyed) held);
          keyed =
              h.keyed
              ∙ ap (λ (k : ManifestCore). manifest_object_key k.db_id k.segment_id) (sym same);
          keeps =
              subst (Keeps s.sinks.worm) worm_same
                (Keeps-trans s.sinks.worm h.left.worm h.worm objects_kept manifest_kept);
          same_queue = ap (λ (v : Sealing). v.sinks.dlq) h.state ∙ queue;
          emitted = ap (λ (v : Sealing). v.heads) h.state;
          no_alarm = ap (λ (v : Sealing). v.alarms) h.state;
        }

    sealed_from :
        (r : Result SealThrown Checked)
        → check_segment d seg previous at ≡ r
        → write_checked d clock seg at s r ≡ (ok (sealed head m manifest_key keys), t)
        → IsSealed seg previous at s head m manifest_key keys t
    unfolding write_checked
    sealed_from (err x) check e = absurd (cc)
    sealed_from (ok (failing stage)) check e = absurd (cc)
    sealed_from (ok (passing chained made its_head)) check e =
        let h =
          write_after-sealed chained made its_head
            (write_objects d clock chained.segment_id 0 chained.object_list chained.objects s.sinks)
            e in
        IsSealed-written chained
          (check_segment-IsChecked d chained m head seg previous at
            (check ∙ ap₂ (λ k j. ok (passing chained k j)) h.same_manifest h.same_head))
          (record {
            left = h.left;
            worm = h.worm;
            objects = h.objects;
            manifest =
                ap
                  (λ k.
                    put_manifest d clock (manifest_object_key chained.db_id chained.segment_id)
                      (serialize_canonical d.js (sealed_manifest_json k)) h.left.worm)
                  (sym h.same_manifest)
                ∙ h.manifest;
            same_head = refl;
            same_manifest = refl;
            keyed = h.keyed;
            state = h.state;
          })

    -- What a seal answers as sealed is evidence. The segment was chained from the end of the one before
    -- it, or from the genesis hash when it is the first, and passed every verification, and the verifier's recomputation from its manifest and its
    -- objects passes. The store holds the canonical text of each object, which is sound, under the key
    -- of its entry in the manifest, and the text of the manifest under its own. Everything that was
    -- stored before is still there, the queue has nothing new, the head is emitted, and no alarm is
    -- raised.
    pub seal-IsSealed :
        seal d clock seg previous at s ≡ (ok (sealed head m manifest_key keys), t)
        → IsSealed seg previous at s head m manifest_key keys t
    unfolding seal
    seal-IsSealed e = sealed_from (check_segment d seg previous at) refl e
