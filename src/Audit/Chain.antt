-- ===== src/Audit/Chain.antt =====
-- A chain of segments passes the verifier's checks across segments.
use external_database_audit.Base.{
  ℕ, zero, suc, ◌+◌, ◌<◌, ◌≡◌, ◌∙◌, inl, inr, refl, sym, ap, subst, Bool, not, Option, none, some,
  List, [], ◌∷◌, ◌++◌, map, ltb, ◌==◌, if◌then◌else◌, arith,
}
use external_database_audit.Base.Lists.{All, All-mono}
use external_database_audit.Base.Platform.{Platform}
use external_database_audit.Base.Sort.{sort, insert}
use external_database_audit.Evidence.{SegmentManifest}
use external_database_audit.Evidence.CrossSegment.Exact.{IsGenesis, Follows, FollowsSome}
use external_database_audit.Verifier.Segments.{VerifierSegment}
use external_database_audit.Verifier.Verify.{numbered}
use external_database_audit.Verifier.Continuity.{count, IsExactly}
use external_database_audit.Verifier.Crossing.{
  by_sequence, previous_of, first_prev_row_hash, IsContinuedIn,
}
use external_database_audit.Verifier.Events.{sort_by_sequence, All-sort_iff}

abbrev pub seq_of : VerifierSegment → ℕ
seq_of v = v.manifest.segment_sequence

module _ (js : Platform) where
  -- the newest segment first: each follows the one before it, and the first stands alone
  abbrev pub IsChain : List VerifierSegment → Type 0
  IsChain [] = Unit
  IsChain (v ∷ []) = IsGenesis v.manifest none
  IsChain (v ∷ w ∷ older) =
      Follows js v.manifest (first_prev_row_hash v.objects) w.manifest × IsChain (w ∷ older)

  -- the segments before the newest have smaller numbers
  pub below_newest :
      (v : VerifierSegment) (older : List VerifierSegment)
      → IsChain (v ∷ older)
      → All (λ w. seq_of w < seq_of v) older
  below_newest v [] h = tt
  below_newest v (w ∷ older) (f, h) = (
    omega (arith, f.next),
    All-mono older (λ x b. omega (arith, b, f.next)) (below_newest w older h),
  )

  older_chain :
      (v : VerifierSegment) (older : List VerifierSegment) → IsChain (v ∷ older) → IsChain older
  older_chain v [] h = tt
  older_chain v (w ∷ older) (f, h) = h

abbrev before : VerifierSegment → VerifierSegment → Bool
before a b = not (ltb (seq_of b) (seq_of a))

insert-last :
    (v : VerifierSegment) (xs : List VerifierSegment)
    → All (λ w. seq_of w < seq_of v) xs
    → insert before v xs ≡ xs ++ v ∷ []
unfolding insert
insert-last v [] h = refl
insert-last v (x ∷ xs) (b, h) = ground (arith, insert-last v xs h)

by_sequence-last :
    (n : ℕ) (found : Option SegmentManifest) (v : VerifierSegment) (xs : List VerifierSegment)
    → by_sequence n found (xs ++ v ∷ [])
      ≡ (if seq_of v == n then some v.manifest else by_sequence n found xs)
unfolding by_sequence
by_sequence-last n found v [] = refl
by_sequence-last n found v (x ∷ xs) =
    by_sequence-last n (if seq_of x == n then some x.manifest else found) v xs

module _ (js : Platform) where
  sorted-newest :
      (v : VerifierSegment) (older : List VerifierSegment)
      → IsChain js (v ∷ older)
      → sort_by_sequence (v ∷ older) ≡ sort_by_sequence older ++ v ∷ []
  unfolding sort_by_sequence sort
  sorted-newest v older h =
      insert-last v (sort before older)
        ((All-sort_iff (λ w. seq_of w < seq_of v) before older).1 (below_newest js v older h))

  lookup-newest :
      (n : ℕ) (v : VerifierSegment) (older : List VerifierSegment)
      → IsChain js (v ∷ older)
      → by_sequence n none (sort_by_sequence (v ∷ older))
        ≡ (if seq_of v == n then some v.manifest else by_sequence n none (sort_by_sequence older))
  lookup-newest n v older h =
      ap (by_sequence n none) (sorted-newest v older h)
      ∙ by_sequence-last n none v (sort_by_sequence older)

  AreFound : List VerifierSegment → List VerifierSegment → Type 0
  AreFound sorted vs = All (λ w. by_sequence (seq_of w) none sorted ≡ some w.manifest) vs

  found_below :
      (v : VerifierSegment) (older ws : List VerifierSegment)
      → IsChain js (v ∷ older)
      → All (λ w. seq_of w < seq_of v) ws
      → AreFound (sort_by_sequence older) ws
      → AreFound (sort_by_sequence (v ∷ older)) ws
  unfolding AreFound
  found_below v older [] h b f = tt
  found_below v older (w ∷ ws) h (b, bs) (f, fs) =
      (ground (arith, lookup-newest (seq_of w) v older h), found_below v older ws h bs fs)

  all_found : (vs : List VerifierSegment) → IsChain js vs → AreFound (sort_by_sequence vs) vs
  unfolding AreFound
  all_found [] h = tt
  all_found (v ∷ older) h = (
    ground (arith, lookup-newest (seq_of v) v older h),
    found_below v older older h (below_newest js v older h)
        (all_found older (older_chain js v older h)),
  )

  previous_of-suc :
      (sorted : List VerifierSegment) (n k : ℕ)
      → n ≡ k + 1
      → previous_of sorted n ≡ by_sequence k none sorted
  unfolding previous_of
  previous_of-suc sorted zero k e = absurd (omega (arith, e))
  previous_of-suc sorted (suc n) k e = ap (λ m. by_sequence m none sorted) (omega (arith, e))

  previous_of-zero : (sorted : List VerifierSegment) (n : ℕ) → n ≡ 0 → previous_of sorted n ≡ none
  unfolding previous_of
  previous_of-zero sorted zero e = refl
  previous_of-zero sorted (suc n) e = absurd (omega (arith, e))

  all_continued :
      (sorted vs : List VerifierSegment)
      → IsChain js vs
      → AreFound sorted vs
      → All (IsContinuedIn js sorted) vs
  unfolding AreFound
  all_continued sorted [] h f = tt
  all_continued sorted (v ∷ []) h f = (
    inl (record {
      first = h.first;
      no_manifest = previous_of-zero sorted (seq_of v) h.first;
      no_link = h.no_link;
    }),
    tt,
  )
  all_continued sorted (v ∷ w ∷ older) (follows, h) (f, fs) =
      let found = previous_of-suc sorted (seq_of v) (seq_of w) follows.next ∙ fs.0 in
      (
        inr (subst (FollowsSome js v.manifest (first_prev_row_hash v.objects)) (sym found) follows),
        all_continued sorted (w ∷ older) h fs,
      )

  pub chain-IsContinuedIn :
      (vs : List VerifierSegment) → IsChain js vs → All (IsContinuedIn js (sort_by_sequence vs)) vs
  chain-IsContinuedIn vs h = all_continued (sort_by_sequence vs) vs h (all_found vs h)

  -- every number up to that of the newest segment is borne once, and no other
  count-chain :
      (n : ℕ) (v : VerifierSegment) (older : List VerifierSegment)
      → IsChain js (v ∷ older)
      → count n (map numbered (v ∷ older)) ≡ (if ltb (seq_of v) n then 0 else 1)
  count-chain n v [] h = ground (arith, h.first)
  count-chain n v (w ∷ older) (f, h) = ground (arith, count-chain n w older h, f.next)

  pub chain-IsExactly :
      (v : VerifierSegment) (older : List VerifierSegment)
      → IsChain js (v ∷ older)
      → IsExactly
          (record { first_segment_sequence = 0; last_segment_sequence = seq_of v })
          (map numbered (v ∷ older))
  chain-IsExactly v older h = record {
    ordered = omega arith;
    inside = λ n from to. ground (arith, count-chain n v older h);
    nothing_else = λ n out. ground (arith, count-chain n v older h, out);
  }
