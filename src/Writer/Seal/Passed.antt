-- ===== src/Writer/Seal/Passed.antt =====
-- What a segment has passed that the sealer writes, and what its writes leave.
use external_database_audit.Base.{
  ◌≡◌, ◌∙◌, refl, sym, ap, subst, String, Bool, true, false, Option, none, some, if◌then◌else◌,
}
use external_database_audit.Base.Result.{Result, ok, err, >>=-eq-ok}
use external_database_audit.Evidence.{
  SegmentInput, SegmentManifest, SegmentHead, PreviousSegmentRef,
}
use external_database_audit.Evidence.Chain.{verify_segment_chain}
use external_database_audit.Evidence.CrossSegment.{
  CrossSegmentVerification, verify_cross_segment, derive_segment_head,
}
use external_database_audit.Evidence.CrossSegment.Exact.{has_passed}
use external_database_audit.Evidence.Manifest.{ManifestError, build_segment_manifest}
use external_database_audit.Writer.Establish.{establish_chain}
use external_database_audit.Writer.Seal.{
  PreviousSealed, Stage, intra_chain, cross_segment, SealThrown, canonical, hash, Checked, failing,
  passing, SealerDeps, lifted, boundary_of, manifest_of, check_crossed, check_built, check_chained,
  check_bounded, check_segment,
}

lifted-ok {ℓ} :
    {A E : Type ℓ} (f : E → SealThrown) (r : Result E A) (a : A) → lifted f r ≡ ok a → r ≡ ok a
lifted-ok f (ok b) a e = cc
lifted-ok f (err x) a e = absurd (cc)

-- What a segment passed before it is written: it was chained from its boundary, its chain verifies,
-- its manifest was built, it continues the segment before it, and it has the head.
pub record IsChecked (d : SealerDeps) (seg : SegmentInput) (previous : Option PreviousSealed)
    (at : String) (chained : SegmentInput) (m : SegmentManifest) (head : SegmentHead) : Type 0 where
  pub boundary : String
  pub link : Option PreviousSegmentRef
  pub bounded : boundary_of seg.segment_sequence previous ≡ some (boundary, link)
  pub established : establish_chain d.js seg boundary ≡ ok chained
  pub chain_passed :
      (verify_segment_chain d.js (record {
        object_list = chained.object_list;
        object_hash_list = chained.object_hash_list;
        objects = chained.objects;
      })).passed
      ≡ true
  pub built : build_segment_manifest d.js d.validate_manifest chained at link ≡ ok m
  pub crossed : has_passed (verify_cross_segment d.js m boundary (manifest_of previous)) ≡ true
  pub headed : derive_segment_head d.js m ≡ ok head

-- a branch that returns what another would not
when_true :
    (b : Bool) (r : Result SealThrown Checked) (stage : Stage) (chained : SegmentInput)
    (m : SegmentManifest) (head : SegmentHead)
    → (if b then r else ok (failing stage)) ≡ ok (passing chained m head)
    → (b ≡ true) × (r ≡ ok (passing chained m head))
when_true true r stage chained m head e = (refl, e)
when_true false r stage chained m head e = absurd (cc)

module _ (d : SealerDeps) (out : SegmentInput) (made : SegmentManifest) (head : SegmentHead) where
  crossed_parts :
      (chained : SegmentInput) (m : SegmentManifest) (v : CrossSegmentVerification)
      → check_crossed d chained m v ≡ ok (passing out made head)
      → (v.passed ≡ true) × (chained ≡ out) × (m ≡ made) × (derive_segment_head d.js m ≡ ok head)
  unfolding check_crossed
  crossed_parts chained m v e =
      let (fine, rest) = when_true v.passed _ cross_segment out made head e in
      let (h, derived, same) = >>=-eq-ok (lifted hash (derive_segment_head d.js m)) _ rest in
      (fine, cc same, cc same, lifted-ok hash (derive_segment_head d.js m) h derived ∙ cc same)

  built_parts :
      (chained : SegmentInput) (boundary : String) (previous : Option PreviousSealed)
      (r : Result ManifestError SegmentManifest)
      → check_built d chained boundary previous r ≡ ok (passing out made head)
      → (r ≡ ok made)
        × (chained ≡ out)
        × (has_passed (verify_cross_segment d.js made boundary (manifest_of previous)) ≡ true)
        × (derive_segment_head d.js made ≡ ok head)
  unfolding check_built
  built_parts chained boundary previous (err x) e = absurd (cc)
  built_parts chained boundary previous (ok m) e =
      let (v, verified, rest) =
        >>=-eq-ok (lifted hash (verify_cross_segment d.js m boundary (manifest_of previous))) _ e in
      let (fine, chain_same, same, derived) = crossed_parts chained m v rest in
      let passed = ap has_passed (lifted-ok hash _ v verified) ∙ fine in
      (
        ap ok same,
        chain_same,
        subst (λ k. has_passed (verify_cross_segment d.js k boundary (manifest_of previous)) ≡ true)
            same passed,
        ap (derive_segment_head d.js) (sym same) ∙ derived,
      )

  bounded_parts :
      (seg : SegmentInput) (previous : Option PreviousSealed) (at : String)
      (b : Option (String × Option PreviousSegmentRef))
      → boundary_of seg.segment_sequence previous ≡ b
      → check_bounded d seg previous at b ≡ ok (passing out made head)
      → IsChecked d seg previous at out made head
  unfolding check_bounded check_chained
  bounded_parts seg previous at none bounded e = absurd (cc)
  bounded_parts seg previous at (some (boundary, link)) bounded e =
      let (chained, established, rest) =
        >>=-eq-ok (lifted canonical (establish_chain d.js seg boundary)) _ e in
      let (fine, rest1) = when_true _ _ intra_chain out made head rest in
      let (built, chain_same, crossed, derived) = built_parts chained boundary previous _ rest1 in
      record {
        boundary = boundary;
        link = link;
        bounded = bounded;
        established =
            lifted-ok canonical (establish_chain d.js seg boundary) chained established
            ∙ ap ok chain_same;
        chain_passed =
            subst
              (λ (c : SegmentInput).
                (verify_segment_chain d.js (record {
                  object_list = c.object_list;
                  object_hash_list = c.object_hash_list;
                  objects = c.objects;
                })).passed
                ≡ true)
              chain_same fine;
        built =
            ap (λ c. build_segment_manifest d.js d.validate_manifest c at link) (sym chain_same)
            ∙ built;
        crossed = crossed;
        headed = derived;
      }

  pub check_segment-IsChecked :
      (seg : SegmentInput) (previous : Option PreviousSealed) (at : String)
      → check_segment d seg previous at ≡ ok (passing out made head)
      → IsChecked d seg previous at out made head
  unfolding check_segment
  check_segment-IsChecked seg previous at e = bounded_parts seg previous at _ refl e
