-- ===== src/Verifier/Complete.antt =====
-- When the check for missing segments passes.
use external_database_audit.Base.{
  ℕ, ◌+◌, ◌-◌, ◌≤◌, ◌<◌, ◌≡◌, ◌↔◌, ◌⊎◌, ◌∙◌, inl, inr, refl, ap, String, Bool, true, false, none,
  some, List, [], ◌∷◌, ltb, if◌then◌else◌, arith, Option-cases, Bool-cases,
}
use external_database_audit.Base.Lists.{length, All}
use external_database_audit.Verifier.Report.{VerificationScope}
use external_database_audit.Verifier.Continuity.{
  Numbered, BySeq, ids_at, group, scope_reversed, Found, both, duplicates, has, gaps, strays, found,
  recompute_no_missing_segment, count, IsExactly,
}
use external_database_audit.Verifier.Grouping.{
  both_iff, outcome_iff, found_iff, HasOne, duplicates_iff, IsInside, strays_iff, gaps→, gaps←,
  IsGrouped, ids_of, group-IsGrouped, length-group, All→, All←,
}

some_id-IsGrouped :
    (m : BySeq) (k : ℕ) (ids : List String) → IsGrouped m → ids_at k m ≡ some ids → 0 < length ids
unfolding ids_at
some_id-IsGrouped [] k ids g e = absurd (cc)
some_id-IsGrouped ((j, js) ∷ m) k ids (free, some_id, g) e =
    ground (arith, some_id-IsGrouped m k ids g)

has_iff : (n : ℕ) (m : BySeq) → (has n m ≡ true) ↔ ((ids : List String) × (ids_at n m ≡ some ids))
has_iff n m =
    elim (ids_at n m)
      as (λ o.
        (elim o as (λ _. Bool) [ none ↦ false | some ids ↦ true ] ≡ true)
        ↔ ((ids : List String) × (o ≡ some ids))) [
          | none ↦ (λ e. absurd (cc), λ (ids, e). absurd (cc))
          | some ids ↦ (λ e. (ids, refl), λ t. refl)
        ]

in_or_out : (first last n : ℕ) → ((first ≤ n) × (n ≤ last)) ⊎ ((n < first) ⊎ (last < n))
in_or_out first last n = elim (Bool-cases (ltb n first)) [
  | inl below ↦ inr (inl (ground arith))
  | inr above ↦ elim (Bool-cases (ltb last n)) [
    | inl beyond ↦ inr (inr (ground arith))
    | inr within ↦ inl (ground arith, ground arith)
  ]
]

module _ (segments : List Numbered) (scope : VerificationScope) where
  abbrev by_seq : BySeq
  by_seq = group [] segments

  grouped : IsGrouped by_seq
  grouped = group-IsGrouped [] segments tt

  count-ids : (n : ℕ) → count n segments ≡ length (ids_of (ids_at n by_seq))
  unfolding ids_at
  count-ids n = omega (arith, length-group n [] segments)

  count-listed :
      (n : ℕ) (ids : List String)
      → ids_at n by_seq ≡ some ids
      → (count n segments ≡ length ids) × (0 < length ids)
  count-listed n ids e =
      (count-ids n ∙ ap (λ o. length (ids_of o)) e, some_id-IsGrouped by_seq n ids grouped e)

  count-unlisted : (n : ℕ) → ids_at n by_seq ≡ none → count n segments ≡ 0
  count-unlisted n e = count-ids n ∙ ap (λ o. length (ids_of o)) e

  -- what the four parts of the check amount to
  record Parts : Type 0 where
    ordered : scope.first_segment_sequence ≤ scope.last_segment_sequence
    once : All HasOne by_seq
    there :
        (k : ℕ)
        → scope.first_segment_sequence ≤ k
        → k ≤ scope.last_segment_sequence
        → has k by_seq ≡ true
    inside : All (IsInside scope.first_segment_sequence scope.last_segment_sequence) by_seq

  Parts-IsExactly : Parts → IsExactly scope segments
  Parts-IsExactly p = record {
    ordered = p.ordered;
    inside = λ n from to.
        let (ids, e) = (has_iff n by_seq).0 (p.there n from to) in
        let (c, pos) = count-listed n ids e in
        omega (arith, c, pos, All→ HasOne by_seq n ids p.once e);
    nothing_else = λ n out. elim (Option-cases (ids_at n by_seq)) [
      | inl free ↦ count-unlisted n free
      | inr (ids, e) ↦
          let bounds =
            All→ (IsInside scope.first_segment_sequence scope.last_segment_sequence) by_seq n ids
              p.inside e in
          absurd (ground (arith, bounds, out))
    ];
  }

  -- a number that is listed is in the scope, and once
  listed_once :
      IsExactly scope segments
      → (k : ℕ) (ids : List String) → ids_at k by_seq ≡ some ids
      → HasOne (k, ids) × IsInside scope.first_segment_sequence scope.last_segment_sequence (k, ids)
  listed_once x k ids e =
      let (c, pos) = count-listed k ids e in
      elim (in_or_out scope.first_segment_sequence scope.last_segment_sequence k) [
        | inl (from, to) ↦ (omega (arith, c, x.inside k from to), (from, to))
        | inr out ↦ absurd (omega (arith, c, pos, x.nothing_else k out))
      ]

  IsExactly-Parts : IsExactly scope segments → Parts
  IsExactly-Parts x = record {
    ordered = x.ordered;
    once = All← HasOne by_seq grouped (λ k ids e. (listed_once x k ids e).0);
    there = λ k from to. elim (Option-cases (ids_at k by_seq)) [
      | inl free ↦ absurd (omega (arith, x.inside k from to, count-unlisted k free))
      | inr there ↦ (has_iff k by_seq).1 there
    ];
    inside =
        All← (IsInside scope.first_segment_sequence scope.last_segment_sequence) by_seq grouped
          (λ k ids e. (listed_once x k ids e).1);
  }

  parts_iff : ((recompute_no_missing_segment segments scope).passed ≡ true) ↔ Parts
  unfolding recompute_no_missing_segment found
  parts_iff =
      let first = scope.first_segment_sequence in
      let last = scope.last_segment_sequence in
      let reversed : Found = if ltb last first then (scope_reversed ∷ [], []) else ([], []) in
      let missed = gaps (last + 1 - first) first by_seq in
      let (clean, passes) = outcome_iff (found segments scope) in
      let (split1, join1) =
        both_iff (duplicates by_seq) (both reversed (both missed (strays first last by_seq))) in
      let (split2, join2) = both_iff reversed (both missed (strays first last by_seq)) in
      let (split3, join3) = both_iff missed (strays first last by_seq) in
      let (ordered→, ordered←) = found_iff (ltb last first) scope_reversed [] in
      let (once→, once←) = duplicates_iff by_seq in
      let (inside→, inside←) = strays_iff first last by_seq in
      (
        λ e.
            let (d, r1) = split1 (clean e) in
            let (o, r2) = split2 r1 in
            let (g, t) = split3 r2 in
            record {
              ordered = ground (arith, ordered→ o);
              once = once→ d;
              there = λ k from to. gaps→ (last + 1 - first) first k by_seq g from (omega arith);
              inside = inside→ t;
            },
        λ p. passes (
            join1 (
              once← p.once,
              join2 (
                ordered← (ground (arith, p.ordered)),
                join3 (
                  gaps← (last + 1 - first) first by_seq
                      (λ k from to. p.there k from (omega (arith, p.ordered))),
                  inside← p.inside,
                ),
              ),
            )),
      )

  -- The check passes exactly when the scope is not reversed, every sequence number in it is borne by
  -- one segment, and no segment bears a number outside of it.
  pub recompute_no_missing_segment_iff :
      ((recompute_no_missing_segment segments scope).passed ≡ true) ↔ IsExactly scope segments
  recompute_no_missing_segment_iff =
      let (parts, passes) = parts_iff in
      (λ e. Parts-IsExactly (parts e), λ x. passes (IsExactly-Parts x))
