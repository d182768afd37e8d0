-- ===== src/Verifier/Crossing.antt =====
-- The check of the continuity across segments of packages/verifier/src/verify-continuity.ts.
use external_database_audit.Base.{
  ℕ, zero, suc, ◌≡◌, ◌↔◌, ◌⊎◌, String, Bool, true, false, not, Option, none, some, List, [], ◌∷◌,
  map, ltb, ◌==◌, if◌then◌else◌, arith,
}
use external_database_audit.Base.Lists.{All}
use external_database_audit.Base.Platform.{Platform}
use external_database_audit.Base.Result.{Result, ok, err, ◌>>=◌}
use external_database_audit.Base.Sort.{sort}
use external_database_audit.Cce.{Cce}
use external_database_audit.Evidence.{SegmentManifest}
use external_database_audit.Evidence.CrossSegment.{
  HashError, verify_cross_segment, CrossSegmentVerification,
}
use external_database_audit.Evidence.CrossSegment.Exact.{
  has_passed, IsGenesis, FollowsSome, verify_cross_segment_iff,
}
use external_database_audit.Verifier.Segments.{CheckOutcome, VerifierSegment}
use external_database_audit.Verifier.Continuity.{ContinuityProblem, link, Found, both, outcome}
use external_database_audit.Verifier.Grouping.{IsClean, both_iff, outcome_iff}
use external_database_audit.Verifier.Events.{sort_by_sequence, All-sort_iff}

-- `bySeq.get(n)`, where the last manifest of a number is kept
unfoldable pub by_sequence :
    ℕ → Option SegmentManifest → List VerifierSegment → Option SegmentManifest
by_sequence n found [] = found
by_sequence n found (s ∷ ss) =
    by_sequence n (if s.manifest.segment_sequence == n then some s.manifest else found) ss

-- `bySeq.get(seq - 1) ?? null`
unfoldable pub previous_of : List VerifierSegment → ℕ → Option SegmentManifest
unfolding by_sequence
previous_of sorted zero = none
previous_of sorted (suc n) = by_sequence n none sorted

abbrev pub or_empty : Option String → String
or_empty none = ""
or_empty (some s) = s

abbrev pub first_prev_row_hash : List Cce → String
first_prev_row_hash [] = ""
first_prev_row_hash (c ∷ cs) = or_empty c.evidence.prev_row_hash

abbrev pub blamed : String → CrossSegmentVerification → Found
blamed id v = if v.passed then ([], []) else (map link v.failures, id ∷ [])

module _ (js : Platform) where
  abbrev pub verified :
      List VerifierSegment → VerifierSegment → Result HashError CrossSegmentVerification
  verified sorted s =
      verify_cross_segment js s.manifest (first_prev_row_hash s.objects)
        (previous_of sorted s.manifest.segment_sequence)

  unfoldable pub cross_problems :
      List VerifierSegment → List VerifierSegment → Result HashError Found
  unfolding previous_of
  cross_problems sorted [] = ok ([], [])
  cross_problems sorted (s ∷ ss) = do
    v ← verified sorted s
    rest ← cross_problems sorted ss
    ok (both (blamed s.manifest.segment_id v) rest)

  unfoldable pub recompute_cross_segment : List VerifierSegment → Result HashError CheckOutcome
  unfolding sort_by_sequence cross_problems outcome
  recompute_cross_segment segments = do
    f ← cross_problems (sort_by_sequence segments) (sort_by_sequence segments)
    ok (outcome f)

abbrev pub passes : Result HashError CheckOutcome → Bool
passes (ok o) = o.passed
passes (err e) = false

abbrev IsCleanResult : Result HashError Found → Type 0
IsCleanResult (ok f) = IsClean f
IsCleanResult (err e) = ⊥

blamed_if :
    (b : Bool) (problems : List ContinuityProblem) (id : String)
    → IsClean (if b then ([], []) else (problems, id ∷ [])) ↔ (b ≡ true)
blamed_if true problems id = ground arith
blamed_if false problems id = ground arith

blamed_iff :
    (id : String) (v : CrossSegmentVerification) → IsClean (blamed id v) ↔ (v.passed ≡ true)
blamed_iff id v = blamed_if v.passed (map link v.failures) id

joined_iff :
    (id : String) (v : Result HashError CrossSegmentVerification) (rest : Result HashError Found)
    → IsCleanResult (v >>= λ w. rest >>= λ f. ok (both (blamed id w) f))
      ↔ ((has_passed v ≡ true) × IsCleanResult rest)
joined_iff id (err e) rest = ground arith
joined_iff id (ok v) (err e) = ground arith
joined_iff id (ok v) (ok f) =
    let (split, join) = both_iff (blamed id v) f in
    let (clean, passed) = blamed_iff id v in
    (λ e. (clean (split e).0, (split e).1), λ (p, q). join (passed p, q))

abbrev pub before : VerifierSegment → VerifierSegment → Bool
before a b = not (ltb b.manifest.segment_sequence a.manifest.segment_sequence)

module _ (js : Platform) where
  -- what verifyCrossSegment asks of a segment and of the manifest that the lookup finds
  abbrev pub IsContinuedIn : List VerifierSegment → VerifierSegment → Type 0
  IsContinuedIn sorted s =
      let previous = previous_of sorted s.manifest.segment_sequence in
      IsGenesis s.manifest previous
      ⊎ FollowsSome js s.manifest (first_prev_row_hash s.objects) previous

  cross_problems_iff :
      (sorted ss : List VerifierSegment)
      → IsCleanResult (cross_problems js sorted ss) ↔ All (IsContinuedIn sorted) ss
  unfolding cross_problems
  cross_problems_iff sorted [] = ground arith
  cross_problems_iff sorted (s ∷ ss) =
      let (split, join) =
        joined_iff s.manifest.segment_id (verified js sorted s) (cross_problems js sorted ss) in
      let (here→, here←) =
        verify_cross_segment_iff js s.manifest (first_prev_row_hash s.objects)
          (previous_of sorted s.manifest.segment_sequence) in
      let (rest→, rest←) = cross_problems_iff sorted ss in
      (λ e. let (p, q) = split e in (here→ p, rest→ q), λ (p, q). join (here← p, rest← q))

  result_iff :
      (r : Result HashError Found) → (passes (r >>= λ f. ok (outcome f)) ≡ true) ↔ IsCleanResult r
  result_iff (ok f) = outcome_iff f
  result_iff (err e) = ground arith

  pub recompute_cross_segment-IsContinuedIn :
      (segments : List VerifierSegment)
      → (passes (recompute_cross_segment js segments) ≡ true)
        ↔ All (IsContinuedIn (sort_by_sequence segments)) segments
  unfolding recompute_cross_segment sort_by_sequence
  recompute_cross_segment-IsContinuedIn segments =
      let sorted = sort before segments in
      let (clean, passed) = result_iff (cross_problems js sorted sorted) in
      let (cross→, cross←) = cross_problems_iff sorted sorted in
      let (all→, all←) = All-sort_iff (IsContinuedIn sorted) before segments in
      (λ e. all→ (cross→ (clean e)), λ h. passed (cross← (all← h)))
