-- ===== src/Verifier/Attested.antt =====
-- What a report of the verifier over parsed segments says where it passes.
use external_database_audit.Base.{
  String, ◌≡◌, ◌≢◌, ◌↔◌, ◌∙◌, sym, ap, subst, Bool, true, false, Option, none, some, List, [], ◌∷◌,
  map, if◌then◌else◌, arith,
}
use external_database_audit.Base.Lists.{All}
use external_database_audit.Base.Platform.{Platform}
use external_database_audit.Base.Result.{Result, ok, err, ◌>>=◌, >>=-eq-ok}
use external_database_audit.Canonical.Json.{CanonicalError}
use external_database_audit.Evidence.{SegmentManifest}
use external_database_audit.Verifier.Segments.{
  CheckOutcome, VerifierSegment, SegmentRecomputeResult, recompute_segment,
}
use external_database_audit.Verifier.Projection.{ProjectionRow}
use external_database_audit.Verifier.Report
use external_database_audit.Verifier.Report.{
  CheckResult, passed, failed, skipped, VerificationCheck, VerificationReport, ReportInit,
  last_result, required_checks, all_checks, build, overall_passed-build,
}
use external_database_audit.Verifier.Continuity.{recompute_no_missing_segment, IsExactly}
use external_database_audit.Verifier.Complete.{recompute_no_missing_segment_iff}
use external_database_audit.Verifier.Crossing.{recompute_cross_segment, passes}
use external_database_audit.Verifier.Continued.{recompute_cross_segment_iff, IsContinued}
use external_database_audit.Verifier.Events.{
  sort_by_sequence, recompute_no_missing_event, recompute_no_missing_event_iff, IsCorroborated,
  AreDisjoint,
}
use external_database_audit.Verifier.Verify.{
  AnchorOutcome, VerifySegmentsArgs, VerifyError, canonical, hash, aggregate, picked, result_of,
  add_check, anchor_checks, projection_check, checks_of, lifted, built, numbered, recompute_all,
  verify_segments, verify, skip_all,
}

result_iff : (o : CheckOutcome) → (some (result_of o) ≡ some passed) ↔ (o.passed ≡ true)
result_iff o = by_cases o.passed
  where
    by_cases : (b : Bool) → (some (if b then passed else failed) ≡ some passed) ↔ (b ≡ true)
    by_cases true = ground arith
    by_cases false = ground arith

-- the aggregates of the outcomes of steps 7 and 8
abbrev AnchorsPass : Option (VerifierSegment → AnchorOutcome) → List VerifierSegment → Type 0
AnchorsPass none segments = ⊥
AnchorsPass (some v) segments =
    ((aggregate (map (λ s. (s.manifest.segment_id, (v s).hsm_signature)) segments)).passed ≡ true)
    × ((aggregate (map (λ s. (s.manifest.segment_id, (v s).anchor_token)) segments)).passed ≡ true)

abbrev Required : List VerificationCheck → Type 0
Required checks = All (λ name. last_result name none checks ≡ some passed) required_checks

-- The checks of a run after steps 1 to 6, with the outcomes of those steps.
abbrev run_checks :
    Option (List ProjectionRow)
    → Option (VerifierSegment → AnchorOutcome)
    → List VerifierSegment
    → (a b c d e f : CheckOutcome) → List VerificationCheck
run_checks projection anchor segments a b c d e f = projection_check projection segments (
    anchor_checks anchor segments (
      add_check "no_missing_event" f (
        add_check "no_missing_segment" e (
          add_check "cross_segment_continuity" d (
            add_check "segment_manifest" c
              (add_check "object_chain" b (add_check "per_object_hash" a [])))))))

abbrev StepsPass : (a b c d e f : CheckOutcome) → Type 0
StepsPass a b c d e f =
    (a.passed ≡ true)
    × (b.passed ≡ true)
    × (c.passed ≡ true)
    × (d.passed ≡ true)
    × (e.passed ≡ true)
    × (f.passed ≡ true)

anchored_iff :
    (v : VerifierSegment → AnchorOutcome) (segments : List VerifierSegment)
    (a b c d e f : CheckOutcome)
    → Required (run_checks none (some v) segments a b c d e f)
      ↔ (StepsPass a b c d e f × AnchorsPass (some v) segments)
unfolding projection_check anchor_checks add_check Report.add Report.skip
anchored_iff v segments a b c d e f =
    let g = aggregate (map (λ s. (s.manifest.segment_id, (v s).hsm_signature)) segments) in
    let h = aggregate (map (λ s. (s.manifest.segment_id, (v s).anchor_token)) segments) in
    (
      λ (x1, (x2, (x3, (x4, (x5, (x6, (x7, (x8, u)))))))). (
        (
          (result_iff a).0 x1,
          (result_iff b).0 x2,
          (result_iff c).0 x3,
          (result_iff d).0 x4,
          (result_iff e).0 x5,
          (result_iff f).0 x6,
        ),
        ((result_iff g).0 x7, (result_iff h).0 x8),
      ),
      λ ((x1, x2, x3, x4, x5, x6), (x7, x8)). (
        (result_iff a).1 x1,
        (
          (result_iff b).1 x2,
          (
            (result_iff c).1 x3,
            (
              (result_iff d).1 x4,
              (
                (result_iff e).1 x5,
                ((result_iff f).1 x6, ((result_iff g).1 x7, ((result_iff h).1 x8, tt))),
              ),
            ),
          ),
        ),
      ),
    )

Required-iff :
    (projection : Option (List ProjectionRow)) (anchor : Option (VerifierSegment → AnchorOutcome))
    (segments : List VerifierSegment) (a b c d e f : CheckOutcome)
    → Required (run_checks projection anchor segments a b c d e f)
      ↔ (StepsPass a b c d e f × AnchorsPass anchor segments)
unfolding projection_check anchor_checks add_check Report.add Report.skip
Required-iff none none segments a b c d e f =
    (λ (x1, (x2, (x3, (x4, (x5, (x6, (x7, r))))))). absurd (cc), λ (x, y). absurd y)
Required-iff (some p) none segments a b c d e f =
    (λ (x1, (x2, (x3, (x4, (x5, (x6, (x7, r))))))). absurd (cc), λ (x, y). absurd y)
Required-iff none (some v) segments a b c d e f = anchored_iff v segments a b c d e f
Required-iff (some p) (some v) segments a b c d e f = anchored_iff v segments a b c d e f

-- what steps 7 and 8 found, of every segment
abbrev pub HasAnchors : Option (VerifierSegment → AnchorOutcome) → List VerifierSegment → Type 0
HasAnchors none segments = ⊥
HasAnchors (some v) segments =
    All (λ s. ((v s).hsm_signature.passed ≡ true) × ((v s).anchor_token.passed ≡ true)) segments

anchors_iff :
    (v : VerifierSegment → AnchorOutcome) (segments : List VerifierSegment)
    → AnchorsPass (some v) segments ↔ HasAnchors (some v) segments
unfolding aggregate
anchors_iff v [] = ground arith
anchors_iff v (s ∷ ss) = ground (arith, anchors_iff v ss)

AnchorsPass-iff :
    (anchor : Option (VerifierSegment → AnchorOutcome)) (segments : List VerifierSegment)
    → AnchorsPass anchor segments ↔ HasAnchors anchor segments
AnchorsPass-iff none segments = ground arith
AnchorsPass-iff (some v) segments = anchors_iff v segments

-- the three outcomes for a segment
abbrev pub AllPass : Result CanonicalError SegmentRecomputeResult → Type 0
AllPass (err e) = ⊥
AllPass (ok r) =
    (r.per_object_hash.passed ≡ true)
    × (r.object_chain.passed ≡ true)
    × (r.segment_manifest.passed ≡ true)

abbrev Aggregated : Result CanonicalError (List (String × SegmentRecomputeResult)) → Type 0
Aggregated (err e) = ⊥
Aggregated (ok results) =
    ((aggregate (picked (λ r. r.per_object_hash) results)).passed ≡ true)
    × ((aggregate (picked (λ r. r.object_chain) results)).passed ≡ true)
    × ((aggregate (picked (λ r. r.segment_manifest) results)).passed ≡ true)

joined_iff :
    (id : String) (r : Result CanonicalError SegmentRecomputeResult)
    (rest : Result CanonicalError (List (String × SegmentRecomputeResult)))
    → Aggregated (r >>= λ x. rest >>= λ xs. ok ((id, x) ∷ xs)) ↔ (AllPass r × Aggregated rest)
unfolding aggregate
joined_iff id (err e) rest = ground arith
joined_iff id (ok r) (err e) = ground arith
joined_iff id (ok r) (ok results) = ground arith

module _ (js : Platform) (validate : SegmentManifest → Bool) where
  recompute_all_iff :
      (segments : List VerifierSegment)
      → Aggregated (recompute_all js validate segments)
        ↔ All (λ s. AllPass (recompute_segment js validate s)) segments
  unfolding recompute_all aggregate
  recompute_all_iff [] = ground arith
  recompute_all_iff (s ∷ ss) =
      let (split, join) =
        joined_iff s.manifest.segment_id (recompute_segment js validate s)
          (recompute_all js validate ss) in
      let (rest→, rest←) = recompute_all_iff ss in
      (λ e. let (p, q) = split e in (p, rest→ q), λ (p, q). join (p, rest← q))

lifted-ok {ℓ} :
    {A E : Type ℓ} (f : E → VerifyError) (r : Result E A) (a : A) → lifted f r ≡ ok a → r ≡ ok a
lifted-ok f (ok b) a e = cc
lifted-ok f (err x) a e = absurd (cc)

built-ok : (o : Option VerificationReport) (r : VerificationReport) → built o ≡ ok r → o ≡ some r
built-ok none r e = absurd (cc)
built-ok (some s) r e = cc

-- what a passing report attests
pub record IsAttested (js : Platform) (validate : SegmentManifest → Bool)
    (args : VerifySegmentsArgs) : Type 0 where
  pub recomputed : All (λ s. AllPass (recompute_segment js validate s)) args.segments
  pub continued : All (IsContinued js args.segments) args.segments
  pub complete : IsExactly args.init.scope (map numbered args.segments)
  pub corroborated : All IsCorroborated args.segments
  pub disjoint : AreDisjoint (sort_by_sequence args.segments)
  pub anchored : HasAnchors args.verify_anchor args.segments

module _ (js : Platform) (validate : SegmentManifest → Bool) (args : VerifySegmentsArgs)
    (results : List (String × SegmentRecomputeResult)) (cross : CheckOutcome)
    (recomputed : recompute_all js validate args.segments ≡ ok results)
    (crossed : recompute_cross_segment js args.segments ≡ ok cross) where
  checks_iff : Required (checks_of args results cross) ↔ IsAttested js validate args
  unfolding checks_of
  checks_iff =
      let (required→, required←) =
        Required-iff args.projection args.verify_anchor args.segments
          (aggregate (picked (λ r. r.per_object_hash) results))
          (aggregate (picked (λ r. r.object_chain) results))
          (aggregate (picked (λ r. r.segment_manifest) results)) cross
          (recompute_no_missing_segment (map numbered args.segments) args.init.scope)
          (recompute_no_missing_event args.segments) in
      let (all→, all←) = recompute_all_iff js validate args.segments in
      let (cross→, cross←) = recompute_cross_segment_iff js args.segments in
      let (complete→, complete←) =
        recompute_no_missing_segment_iff (map numbered args.segments) args.init.scope in
      let (events→, events←) = recompute_no_missing_event_iff args.segments in
      let (anchors→, anchors←) = AnchorsPass-iff args.verify_anchor args.segments in
      (
        λ required.
            let ((a, b, c, d, e, f), g) = required→ required in
            record {
              recomputed = all→ (subst Aggregated (sym recomputed) (a, b, c));
              continued = cross→ (ap passes crossed ∙ d);
              complete = complete→ e;
              corroborated = (events→ f).0;
              disjoint = (events→ f).1;
              anchored = anchors→ g;
            },
        λ x.
            let (a, b, c) = subst Aggregated recomputed (all← x.recomputed) in
            required← (
              (
                a,
                b,
                c,
                sym (ap passes crossed) ∙ cross← x.continued,
                complete← x.complete,
                events← (x.corroborated, x.disjoint),
              ),
              anchors← x.anchored,
            ),
      )

-- A report that verifySegments returns passes exactly when the hashes, the chain and the manifest of
-- every segment recompute; every segment is the first or follows the last given segment of the number
-- before its own; the segments bear the numbers
-- of the scope once each and no other; no gap is reported and no offset is used twice by neighbours;
-- and the keys and certificates were given and the signature and the anchor of every segment pass. The
-- projection has no say.
pub overall_passed-verify_segments :
    (js : Platform) (validate : SegmentManifest → Bool)
    (validate_report : VerificationReport → Bool) (args : VerifySegmentsArgs)
    (r : VerificationReport)
    → verify_segments js validate validate_report args ≡ ok r
    → (r.overall_passed ≡ true) ↔ IsAttested js validate args
unfolding verify_segments
overall_passed-verify_segments js validate validate_report args r returned =
    let (results, e1, k1) =
      >>=-eq-ok (lifted canonical (recompute_all js validate args.segments)) _ returned in
    let (cross, e2, k2) = >>=-eq-ok (lifted hash (recompute_cross_segment js args.segments)) _ k1 in
    let checks = checks_of args results cross in
    let (passed→, passed←) =
      overall_passed-build validate_report args.init checks r
        (built-ok (build validate_report args.init checks) r k2) in
    let (checks→, checks←) =
      checks_iff js validate args results cross
        (lifted-ok canonical (recompute_all js validate args.segments) results e1)
        (lifted-ok hash (recompute_cross_segment js args.segments) cross e2) in
    (λ e. checks→ (passed→ e), λ x. passed← (checks← x))

-- The report of `verify` skips every check, and so it never passes.
overall_passed-verify :
    (validate_report : VerificationReport → Bool) (init : ReportInit) (r : VerificationReport)
    → verify validate_report init ≡ some r
    → r.overall_passed ≢ true
unfolding verify skip_all Report.skip Report.add
overall_passed-verify validate_report init r returned e =
    let (missing, rest) =
      (overall_passed-build validate_report init (skip_all all_checks []) r returned).0 e in
    cc
