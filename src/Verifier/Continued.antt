-- ===== src/Verifier/Continued.antt =====
-- What the check of the continuity of packages/verifier/src/verify-continuity.ts asks of the segments, in
-- the order in which they are given.
use external_database_audit.Base.{
  ℕ, zero, suc, ◌+◌, ◌≡◌, ◌≢◌, ◌↔◌, ◌⊎◌, ◌∙◌, inl, inr, refl, sym, ap, subst, String, true, Option,
  none, some, List, [], ◌∷◌, ◌++◌, ◌==◌, if◌then◌else◌, arith, Option-cases,
}
use native.Mathlib.Decide.{ℕ_discrete}
use external_database_audit.Base.Lists.{All, All-mono}
use external_database_audit.Base.Platform.{Platform}
use external_database_audit.Base.Sort.{sort, insert}
use external_database_audit.Cce.{Cce}
use external_database_audit.Evidence.{SegmentManifest}
use external_database_audit.Evidence.CrossSegment.Exact.{either, Follows, FollowsSome}
use external_database_audit.Verifier.Segments.{VerifierSegment}
use external_database_audit.Verifier.Events.{sort_by_sequence}
use external_database_audit.Verifier.Crossing.{
  by_sequence, previous_of, or_empty, first_prev_row_hash, before, passes, recompute_cross_segment,
  IsContinuedIn, recompute_cross_segment-IsContinuedIn,
}

abbrev number : VerifierSegment → ℕ
number v = v.manifest.segment_sequence

-- a given segment of which no later one has the number
abbrev pub IsLast : List VerifierSegment → VerifierSegment → Type 0
IsLast segments w =
    (earlier : List VerifierSegment) × (later : List VerifierSegment) × (segments
      ≡ earlier ++ w ∷ later)
    × All (λ v. v.manifest.segment_sequence ≢ w.manifest.segment_sequence) later

-- The first object links to the row hash; where there is no object, or it has no link, the row hash is
-- the empty text.
abbrev pub StartsFrom : List Cce → String → Type 0
StartsFrom objects row =
    ((objects ≡ []) × (row ≡ ""))
    ⊎ ((c : Cce) × (cs : List Cce) × (objects ≡ c ∷ cs)
        × ((c.evidence.prev_row_hash ≡ some row)
            ⊎ ((c.evidence.prev_row_hash ≡ none) × (row ≡ ""))))

StartsFrom-first : (objects : List Cce) → StartsFrom objects (first_prev_row_hash objects)
StartsFrom-first [] = inl (refl, refl)
StartsFrom-first (c ∷ cs) = elim (Option-cases c.evidence.prev_row_hash) [
  | inl n ↦ inr (c, cs, refl, inr (n, ap or_empty n))
  | inr (row, e) ↦ inr (c, cs, refl, inl (e ∙ ap some (sym (ap or_empty e))))
]

first-StartsFrom :
    (objects : List Cce) (row : String) → StartsFrom objects row → row ≡ first_prev_row_hash objects
first-StartsFrom objects row (inl (empty, none_there)) =
    none_there ∙ sym (ap first_prev_row_hash empty)
first-StartsFrom objects row (inr (c, cs, starts, inl e)) =
    sym (ap first_prev_row_hash starts ∙ ap or_empty e)
first-StartsFrom objects row (inr (c, cs, starts, inr (e, none_there))) =
    none_there ∙ sym (ap first_prev_row_hash starts ∙ ap or_empty e)

-- sorting by the number keeps the order of the segments of one number
by_sequence-insert :
    (n : ℕ) (found : Option SegmentManifest) (v : VerifierSegment) (vs : List VerifierSegment)
    → by_sequence n found (insert before v vs) ≡ by_sequence n found (v ∷ vs)
unfolding by_sequence insert
by_sequence-insert n found v [] = refl
by_sequence-insert n found v (w ∷ vs) =
    ground (arith, by_sequence-insert n found v vs, by_sequence-insert n (some w.manifest) v vs)

by_sequence-sort :
    (n : ℕ) (found : Option SegmentManifest) (vs : List VerifierSegment)
    → by_sequence n found (sort before vs) ≡ by_sequence n found vs
unfolding by_sequence sort
by_sequence-sort n found [] = refl
by_sequence-sort n found (v ∷ vs) =
    by_sequence-insert n found v (sort before vs)
    ∙ by_sequence-sort n (if number v == n then some v.manifest else found) vs

by_sequence-none_later :
    (n : ℕ) (found : Option SegmentManifest) (vs : List VerifierSegment)
    → All (λ v. number v ≢ n) vs
    → by_sequence n found vs ≡ found
unfolding by_sequence
by_sequence-none_later n found [] h = refl
by_sequence-none_later n found (v ∷ vs) (differs, h) =
    ground (arith, by_sequence-none_later n found vs h)

by_sequence-split :
    (w : VerifierSegment) (found : Option SegmentManifest) (earlier later : List VerifierSegment)
    → All (λ v. number v ≢ number w) later
    → by_sequence (number w) found (earlier ++ w ∷ later) ≡ some w.manifest
unfolding by_sequence
by_sequence-split w found [] later h =
    ground (arith, by_sequence-none_later (number w) (some w.manifest) later h)
by_sequence-split w found (v ∷ earlier) later h =
    by_sequence-split w (if number v == number w then some v.manifest else found) earlier later h

-- a manifest that is found is that of the last segment of the number, or was found before
found-IsLast :
    (n : ℕ) (found : Option SegmentManifest) (m : SegmentManifest) (vs : List VerifierSegment)
    → by_sequence n found vs ≡ some m
    → ((found ≡ some m) × All (λ v. number v ≢ n) vs)
      ⊎ ((w : VerifierSegment) × IsLast vs w × (number w ≡ n) × (w.manifest ≡ m))
unfolding by_sequence
found-IsLast n found m [] e = inl (e, tt)
found-IsLast n found m (v ∷ vs) e =
    let rest = found-IsLast n (if number v == n then some v.manifest else found) m vs e in
    elim (ℕ_discrete (number v) n) [
      | yes same ↦
          let starts : (if number v == n then some v.manifest else found) ≡ some v.manifest =
            ground (arith, same) in
          either
            (λ (here, differ). inr (
              v,
              ([], vs, refl, subst (λ k. All (λ w. number w ≢ k) vs) (sym same) differ),
              same,
              cc (starts, here),
            ))
            (λ (w, (earlier, later, split, differ), there, its).
              inr (w, (v ∷ earlier, later, ap (λ ws. v ∷ ws) split, differ), there, its))
            rest
      | no other ↦
          let kept : (if number v == n then some v.manifest else found) ≡ found =
            ground (arith, other) in
          either (λ (here, differ). inl (sym kept ∙ here, (other, differ)))
            (λ (w, (earlier, later, split, differ), there, its).
              inr (w, (v ∷ earlier, later, ap (λ ws. v ∷ ws) split, differ), there, its))
            rest
    ]

-- the lookup finds the manifest of the last given segment of the number before
previous_of_iff :
    (segments : List VerifierSegment) (k : ℕ) (p : SegmentManifest)
    → (previous_of (sort_by_sequence segments) k ≡ some p)
      ↔ ((w : VerifierSegment) × IsLast segments w × (k ≡ number w + 1) × (w.manifest ≡ p))
unfolding previous_of sort_by_sequence
previous_of_iff segments zero p =
    (λ e. absurd (cc), λ (w, last, next, same). absurd (omega (arith, next)))
previous_of_iff segments (suc n) p = (
  λ e.
      either (λ (nothing, differ). absurd (cc (nothing)))
        (λ (w, last, there, same). (w, last, omega (arith, there), same))
        (found-IsLast n none p segments (sym (by_sequence-sort n none segments) ∙ e)),
  λ (w, (earlier, later, split, differ), next, same).
      let there : number w ≡ n = omega (arith, next) in
      by_sequence-sort n none segments
      ∙ ap (λ k. by_sequence k none segments) (sym there)
      ∙ ap (by_sequence (number w) none) split
      ∙ by_sequence-split w none earlier later differ
      ∙ ap some same,
)

previous_of-first : (sorted : List VerifierSegment) (k : ℕ) → k ≡ 0 → previous_of sorted k ≡ none
unfolding previous_of
previous_of-first sorted zero e = refl
previous_of-first sorted (suc k) e = absurd (omega (arith, e))

module _ (js : Platform) where
  -- The segment is the first and names none before it; or, of the last given segment `w` of the number
  -- before its own, it names the identity, the number and the recomputed hash, has its database, and
  -- starts from its last row hash.
  abbrev pub IsContinued : List VerifierSegment → VerifierSegment → Type 0
  IsContinued segments s =
      ((s.manifest.segment_sequence ≡ 0) × (s.manifest.previous_segment ≡ none))
      ⊎ ((w : VerifierSegment) × (row : String) × IsLast segments w
          × StartsFrom s.objects row
          × Follows js s.manifest row w.manifest)

  -- what a lookup that was followed has found
  followed :
      (segments : List VerifierSegment) (s : VerifierSegment) (found : Option SegmentManifest)
      → previous_of (sort_by_sequence segments) (number s) ≡ found
      → FollowsSome js s.manifest (first_prev_row_hash s.objects) found
      → (w : VerifierSegment) × (row : String) × IsLast segments w
        × StartsFrom s.objects row
        × Follows js s.manifest row w.manifest
  followed segments s none e f = absurd f
  followed segments s (some p) e f =
      let (w, last, next, same) = (previous_of_iff segments (number s) p).0 e in
      (
        w,
        first_prev_row_hash s.objects,
        last,
        StartsFrom-first s.objects,
        subst (Follows js s.manifest (first_prev_row_hash s.objects)) (sym same) f,
      )

  IsContinued-iff :
      (segments : List VerifierSegment) (s : VerifierSegment)
      → IsContinuedIn js (sort_by_sequence segments) s ↔ IsContinued segments s
  IsContinued-iff segments s = (
    either (λ g. inl (g.first, g.no_link)) (λ f. inr (followed segments s _ refl f)),
    either
        (λ (first, no_link). inl (record {
          first = first;
          no_manifest = previous_of-first (sort_by_sequence segments) (number s) first;
          no_link = no_link;
        }))
        (λ (w, row, last, starts, f). inr (
          subst (FollowsSome js s.manifest (first_prev_row_hash s.objects))
            (sym ((previous_of_iff segments (number s) w.manifest).1 (w, last, f.next, refl)))
            (subst (λ r. Follows js s.manifest r w.manifest) (first-StartsFrom s.objects row starts)
              f))),
  )

  -- The check of the continuity passes exactly when every segment is the first and names none before
  -- it, or there is a given segment of the number before its own, the last of that number as they are
  -- given, that it follows: it has the same database, it names that segment under its identity, its
  -- number and its recomputed hash, and its first object links to the last row hash of that segment.
  pub recompute_cross_segment_iff :
      (segments : List VerifierSegment)
      → (passes (recompute_cross_segment js segments) ≡ true) ↔ All (IsContinued segments) segments
  recompute_cross_segment_iff segments =
      let (to, from) = recompute_cross_segment-IsContinuedIn js segments in
      (
        λ e. All-mono segments (λ s. (IsContinued-iff segments s).0) (to e),
        λ h. from (All-mono segments (λ s. (IsContinued-iff segments s).1) h),
      )
