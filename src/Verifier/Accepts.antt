-- ===== src/Verifier/Accepts.antt =====
-- The verifier accepts what the writer seals.
use external_database_audit.Base.{
  ℕ, suc, ◌≡◌, ◌≢◌, ◌∙◌, refl, sym, ap, ap₂, subst, String, Bool, true, false, not, ◌&&◌, Option,
  none, some, List, [], ◌∷◌, ◌++◌, arith,
}
use external_database_audit.Base.Lists.{get_elem?, length, All, All-mono}
use external_database_audit.Base.Platform.{Platform}
use external_database_audit.Base.Result.{Result, ok, ◌>>=◌}
use external_database_audit.Canonical.Json.{CanonicalError}
use external_database_audit.Cce.{Cce}
use external_database_audit.Evidence.{
  SegmentObjectRef, SegmentObjectHash, SegmentManifest, SegmentInput, PreviousSegmentRef,
  ManifestCore,
}
use external_database_audit.Evidence.Chain.{
  ObjectChainCheck, ChainFailure, check_object, check_from, verify_segment_chain, ref_aligned,
  hash_aligned, event_listed, row_listed, linked, none_failed, threw, event_ok, row_ok,
}
use external_database_audit.Evidence.Chain
use external_database_audit.Cce.Verify.{verify_cce}
use external_database_audit.Evidence.Manifest.{core_with, build_segment_manifest}
use external_database_audit.Evidence.Manifest.Built.{build_segment_manifest-eq-ok_iff}
use external_database_audit.Verifier.Segments.{
  VerifierSegment, SegmentRecomputeResult, pass, manifest_problems, outcome_of, failing,
  outcome_for, chain_ok, recompute_manifest, recompute_with, recompute_segment,
}
use external_database_audit.Writer.Establish.{establish_chain}
use external_database_audit.Writer.Establish.Consistent.{IsPrepared, length-AreRefs}
use external_database_audit.Writer.Establish.Sound.{
  HasHexDigests, IsToken, AreReady, establish_chain-verifies,
}
use external_database_audit.Verifier.Bound.{manifest_problems-nil}

-- an object that records no failure passes every test
abbrev IsClean : ObjectChainCheck → Type 0
IsClean k = (k.event_hash_ok ≡ true) × (chain_ok k ≡ true)

parts-nil : (xs ys : List ChainFailure) → xs ++ ys ≡ [] → (xs ≡ []) × (ys ≡ [])
parts-nil [] ys e = (refl, e)
parts-nil (x ∷ xs) ys e = absurd (cc)

unaligned :
    (r : Bool) (i : ℕ) (rest : List ChainFailure)
    → Chain.unless r i Chain.order ++ (Chain.unless false i Chain.order ++ rest) ≡ []
    → ⊥
unaligned true i rest e = cc
unaligned false i rest e = cc

clean :
    (ra ha th ev ro el rl lk : Bool) (i : ℕ)
    → Chain.unless ra i Chain.order
        ++ (Chain.unless ha i Chain.order
            ++ (Chain.unless th i Chain.event_hash
                ++ (Chain.unless ev i Chain.event_hash
                    ++ (Chain.unless ro i Chain.row_hash
                        ++ ((Chain.unless el i Chain.hash_list ++ Chain.unless rl i Chain.hash_list)
                            ++ Chain.unless lk i Chain.prev_link)))))
      ≡ []
    → (ev ≡ true) × ((ro && lk && (el && rl) && (ra && ha)) ≡ true)
clean ra ha th ev ro el rl lk i e = ground arith

module _ (js : Platform) where
  check_object-IsClean :
      (i : ℕ) (prev : Option String) (c : Cce) (r : Option SegmentObjectRef)
      (h : Option SegmentObjectHash)
      → (check_object js i prev c r h).1 ≡ []
      → IsClean (check_object js i prev c r h).0
  unfolding check_object
  check_object-IsClean i prev c r none failed =
      let v = verify_cce js c in absurd (unaligned (ref_aligned i c r) i _ failed)
  check_object-IsClean i prev c r (some h) failed =
      let v = verify_cce js c in
      clean (ref_aligned i c r) (hash_aligned i (some h)) (not (threw v)) (event_ok v) (row_ok v)
        (event_listed c (some h)) (row_listed c (some h)) (linked prev c) i failed

  check_from-IsClean :
      (refs : List SegmentObjectRef) (hashes : List SegmentObjectHash) (i : ℕ)
      (prev : Option String) (cs : List Cce)
      → (check_from js refs hashes i prev cs).1 ≡ []
      → All IsClean (check_from js refs hashes i prev cs).0
  unfolding check_from
  check_from-IsClean refs hashes i prev [] h = tt
  check_from-IsClean refs hashes i prev (c ∷ cs) h =
      let (here, later) =
        parts-nil (check_object js i prev c (get_elem? refs i) (get_elem? hashes i)).1 _ h in
      (
        check_object-IsClean i prev c (get_elem? refs i) (get_elem? hashes i) here,
        check_from-IsClean refs hashes (suc i) (some c.evidence.row_hash) cs later,
      )

failing-nil :
    (test : ObjectChainCheck → Bool) (ks : List ObjectChainCheck)
    → All (λ k. test k ≡ true) ks
    → failing test ks ≡ []
failing-nil test [] h = refl
failing-nil test (k ∷ ks) (e, h) = ground (arith, failing-nil test ks h)

none_failed-nil : (js : Platform) (fs : List ChainFailure) → none_failed js fs ≡ true → fs ≡ []
none_failed-nil js [] h = refl
none_failed-nil js (f ∷ fs) h = absurd (cc)

returned_same :
    {r : Result CanonicalError SegmentInput} {a b : SegmentInput} → r ≡ ok a → r ≡ ok b → b ≡ a
returned_same e f = cc

abbrev pub all_pass : SegmentRecomputeResult
all_pass = record { per_object_hash = pass; object_chain = pass; segment_manifest = pass }

module _ (js : Platform) where
  recompute_with-all_pass :
      (m : SegmentManifest) (objects cs : List Cce)
      → (verify_segment_chain js (record {
        object_list = m.object_list;
        object_hash_list = m.object_hash_list;
        objects = cs;
      })).passed
        ≡ true
      → recompute_with js (record { manifest = m; objects = objects }) cs pass ≡ all_pass
  unfolding recompute_with verify_segment_chain
  recompute_with-all_pass m objects [] passed = absurd (cc)
  recompute_with-all_pass m objects (c ∷ cs) passed =
      let checks = (check_from js m.object_list m.object_hash_list 0 none (c ∷ cs)).0 in
      let clean =
        check_from-IsClean js m.object_list m.object_hash_list 0 none (c ∷ cs)
          (none_failed-nil js _ passed) in
      let events = failing-nil (λ k. k.event_hash_ok) checks (All-mono checks (λ k h. h.0) clean) in
      let links = failing-nil chain_ok checks (All-mono checks (λ k h. h.1) clean) in
      ap₂
        (λ a b. record {
          per_object_hash = outcome_for a;
          object_chain = outcome_for b;
          segment_manifest = pass;
        })
        events links

  module _ (validate : SegmentManifest → Bool) where
    pub built-accepts :
        (out : SegmentInput) (sealed_at : String) (given : Option PreviousSegmentRef)
        (m : SegmentManifest)
        → (verify_segment_chain js (record {
          object_list = out.object_list;
          object_hash_list = out.object_hash_list;
          objects = out.objects;
        })).passed
          ≡ true
        → build_segment_manifest js validate out sealed_at given ≡ ok m
        → recompute_segment js validate (record { manifest = m; objects = out.objects })
          ≡ ok all_pass
    unfolding recompute_segment recompute_manifest core_with
    built-accepts out sealed_at given m passed built =
        let (consistent, linked, same, hashed, valid) =
          (build_segment_manifest-eq-ok_iff js validate out sealed_at given m).0 built in
        let clean = manifest_problems-nil validate out m sealed_at given consistent same valid in
        let chained =
          subst
            (λ (k : ManifestCore).
              (verify_segment_chain js (record {
                object_list = k.object_list;
                object_hash_list = k.object_hash_list;
                objects = out.objects;
              })).passed
              ≡ true)
            (sym same) passed in
        let seg : VerifierSegment = record { manifest = m; objects = out.objects } in
        ap
          (λ r.
            (r >>= λ hash. ok (outcome_of m.segment_id (manifest_problems validate seg hash)))
            >>= λ manifest. ok (recompute_with js seg out.objects manifest))
          hashed
        ∙ ap (λ qs. ok (recompute_with js seg out.objects (outcome_of m.segment_id qs))) clean
        ∙ ap ok (recompute_with-all_pass m out.objects out.objects chained)

    -- What the writer seals, the verifier accepts: where a prepared segment, whose objects carry the
    -- event hashes of their contents, has its chain established from a boundary and a manifest built
    -- for it, the recomputation from the manifest and the objects passes all of its three checks. This
    -- needs that digests are 64 hex digits, and that the boundary is a hash token.
    pub sealed-accepts :
        (seg out : SegmentInput) (boundary sealed_at : String) (given : Option PreviousSegmentRef)
        (m : SegmentManifest)
        → HasHexDigests js
        → IsToken boundary
        → IsPrepared seg
        → AreReady js seg.object_list 0 seg.objects
        → establish_chain js seg boundary ≡ ok out
        → build_segment_manifest js validate out sealed_at given ≡ ok m
        → recompute_segment js validate (record { manifest = m; objects = out.objects })
          ≡ ok all_pass
    sealed-accepts seg out boundary sealed_at given m hex token ready hashed established built =
        let full : seg.objects ≢ [] = λ none_there. absurd (
          omega (
            arith,
            ready.filled,
            length-AreRefs 0 seg.object_list seg.objects ready.refs,
            ap length none_there,
          )) in
        let (other, done, passed, same) =
          establish_chain-verifies js seg boundary hex token full hashed in
        built-accepts out sealed_at given m
          (subst
            (λ (o : SegmentInput).
              (verify_segment_chain js (record {
                object_list = o.object_list;
                object_hash_list = o.object_hash_list;
                objects = o.objects;
              })).passed
              ≡ true)
            (returned_same established done) passed)
          built
