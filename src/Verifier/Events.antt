-- ===== src/Verifier/Events.antt =====
-- The check for missing events of packages/verifier/src/verify-continuity.ts. The fields of a manifest
-- have their types, so that the tests for absent ones are left out.
use external_database_audit.Base.{
  ◌≡◌, ◌≢◌, ◌↔◌, String, Bool, true, false, not, List, [], ◌∷◌, ltb, str_eq, eq_iff, arith,
}
use external_database_audit.Base.Lists.{All}
use external_database_audit.Base.Sort.{sort, insert}
use external_database_audit.Cce.{Cce}
use external_database_audit.Evidence.{SegmentManifest}
use external_database_audit.Verifier.Segments.{CheckOutcome, VerifierSegment}
use external_database_audit.Verifier.Continuity.{
  ContinuityProblem, summary_gap, not_continuous, object_gap, no_objects, first_offset, last_offset,
  overlap, Found, both, outcome,
}
use external_database_audit.Verifier.Grouping.{IsClean, both_iff, outcome_iff}

unfoldable pub sort_by_sequence : List VerifierSegment → List VerifierSegment
unfolding sort
sort_by_sequence segments =
    sort (λ a b. not (ltb b.manifest.segment_sequence a.manifest.segment_sequence)) segments

-- `if (!test) { problems.push(problem); offending.push(id); }`
abbrev pub flag : Bool → ContinuityProblem → String → Found
flag true problem id = ([], [])
flag false problem id = (problem ∷ [], id ∷ [])

unfoldable pub object_gaps : List Cce → Found
object_gaps [] = ([], [])
object_gaps (c ∷ cs) =
    both (flag (not c.completeness.gap_detected) object_gap c.envelope_id) (object_gaps cs)

abbrev pub last_of : Cce → List Cce → Cce
last_of c [] = c
last_of c (d ∷ cs) = last_of d cs

-- the range of offsets against the first and the last object
unfoldable pub range_problems : SegmentManifest → List Cce → Found
range_problems m [] = (no_objects ∷ [], m.segment_id ∷ [])
range_problems m (c ∷ cs) =
    both
      (flag (str_eq m.source_offset_range.first_offset_key c.completeness.consumed_offset_key)
        first_offset m.segment_id)
      (flag
        (str_eq m.source_offset_range.last_offset_key
          (last_of c cs).completeness.consumed_offset_key)
        last_offset m.segment_id)

unfoldable pub event_problems : List VerifierSegment → Found
unfolding object_gaps range_problems
event_problems [] = ([], [])
event_problems (s ∷ ss) =
    let m = s.manifest in
    both
      (both (flag (not m.completeness_summary.gap_detected) summary_gap m.segment_id) (
        both (flag m.completeness_summary.expected_continuous not_continuous m.segment_id)
          (both (object_gaps s.objects) (range_problems m s.objects))))
      (event_problems ss)

-- neighbours in the order of the sequence numbers
unfoldable pub overlaps : List VerifierSegment → Found
overlaps [] = ([], [])
overlaps (s ∷ []) = ([], [])
overlaps (s ∷ t ∷ ss) =
    both
      (flag
        (not (
          str_eq t.manifest.source_offset_range.first_offset_key
            s.manifest.source_offset_range.last_offset_key))
        overlap t.manifest.segment_id)
      (overlaps (t ∷ ss))

unfoldable pub recompute_no_missing_event : List VerifierSegment → CheckOutcome
unfolding sort_by_sequence event_problems overlaps outcome
recompute_no_missing_event segments =
    let sorted = sort_by_sequence segments in
    outcome (both (event_problems sorted) (overlaps sorted))

abbrev pub HasNoGap : Cce → Type 0
HasNoGap c = c.completeness.gap_detected ≡ false

-- the range of offsets runs from that of the first object to that of the last
abbrev pub Spans : SegmentManifest → List Cce → Type 0
Spans m [] = ⊥
Spans m (c ∷ cs) =
    (m.source_offset_range.first_offset_key ≡ c.completeness.consumed_offset_key)
    × (m.source_offset_range.last_offset_key ≡ (last_of c cs).completeness.consumed_offset_key)

pub record IsCorroborated (s : VerifierSegment) : Type 0 where
  pub no_gap : s.manifest.completeness_summary.gap_detected ≡ false
  pub continuous : s.manifest.completeness_summary.expected_continuous ≡ true
  pub objects_no_gap : All HasNoGap s.objects
  pub spans : Spans s.manifest s.objects

-- No segment starts with the last offset of the one before it.
abbrev pub AreDisjoint : List VerifierSegment → Type 0
AreDisjoint [] = Unit
AreDisjoint (s ∷ []) = Unit
AreDisjoint (s ∷ t ∷ ss) =
    (t.manifest.source_offset_range.first_offset_key
      ≢ s.manifest.source_offset_range.last_offset_key)
    × AreDisjoint (t ∷ ss)

flag_iff : (b : Bool) (p : ContinuityProblem) (id : String) → IsClean (flag b p id) ↔ (b ≡ true)
flag_iff true p id = ground arith
flag_iff false p id = ground arith

object_gaps_iff : (cs : List Cce) → IsClean (object_gaps cs) ↔ All HasNoGap cs
unfolding object_gaps
object_gaps_iff [] = ground arith
object_gaps_iff (c ∷ cs) =
    let here = flag (not c.completeness.gap_detected) object_gap c.envelope_id in
    let (split, join) = both_iff here (object_gaps cs) in
    let (clean, holds) = flag_iff (not c.completeness.gap_detected) object_gap c.envelope_id in
    let (rest→, rest←) = object_gaps_iff cs in
    (
      λ e. (ground (arith, clean (split e).0), rest→ (split e).1),
      λ (h, hs). join (holds (ground arith), rest← hs),
    )

range_problems_iff :
    (m : SegmentManifest) (cs : List Cce) → IsClean (range_problems m cs) ↔ Spans m cs
unfolding range_problems
range_problems_iff m [] = ground arith
range_problems_iff m (c ∷ cs) =
    let range = m.source_offset_range in
    let from = str_eq range.first_offset_key c.completeness.consumed_offset_key in
    let to = str_eq range.last_offset_key (last_of c cs).completeness.consumed_offset_key in
    let (split, join) =
      both_iff (flag from first_offset m.segment_id) (flag to last_offset m.segment_id) in
    let (from→, from←) = flag_iff from first_offset m.segment_id in
    let (to→, to←) = flag_iff to last_offset m.segment_id in
    let (first→, first←) = eq_iff range.first_offset_key c.completeness.consumed_offset_key in
    let (last→, last←) =
      eq_iff range.last_offset_key (last_of c cs).completeness.consumed_offset_key in
    (
      λ e. (first→ (from→ (split e).0), last→ (to→ (split e).1)),
      λ (f, l). join (from← (first← f), to← (last← l)),
    )

event_problems_iff :
    (ss : List VerifierSegment) → IsClean (event_problems ss) ↔ All IsCorroborated ss
unfolding event_problems
event_problems_iff [] = ground arith
event_problems_iff (s ∷ ss) =
    let m = s.manifest in
    let gap = flag (not m.completeness_summary.gap_detected) summary_gap m.segment_id in
    let broken = flag m.completeness_summary.expected_continuous not_continuous m.segment_id in
    let parts = both (object_gaps s.objects) (range_problems m s.objects) in
    let (split, join) = both_iff (both gap (both broken parts)) (event_problems ss) in
    let (split1, join1) = both_iff gap (both broken parts) in
    let (split2, join2) = both_iff broken parts in
    let (split3, join3) = both_iff (object_gaps s.objects) (range_problems m s.objects) in
    let (gap→, gap←) =
      flag_iff (not m.completeness_summary.gap_detected) summary_gap m.segment_id in
    let (broken→, broken←) =
      flag_iff m.completeness_summary.expected_continuous not_continuous m.segment_id in
    let (objects→, objects←) = object_gaps_iff s.objects in
    let (range→, range←) = range_problems_iff m s.objects in
    let (rest→, rest←) = event_problems_iff ss in
    (
      λ e.
          let (here, rest) = split e in
          let (g, here1) = split1 here in
          let (b, here2) = split2 here1 in
          let (o, r) = split3 here2 in
          (
            record {
              no_gap = ground (arith, gap→ g);
              continuous = broken→ b;
              objects_no_gap = objects→ o;
              spans = range→ r;
            },
            rest→ rest,
          ),
      λ (c, cs). join (
        join1 (
          gap← (ground (arith, c.no_gap)),
          join2 (broken← c.continuous, join3 (objects← c.objects_no_gap, range← c.spans)),
        ),
        rest← cs,
      ),
    )

overlaps_iff : (ss : List VerifierSegment) → IsClean (overlaps ss) ↔ AreDisjoint ss
unfolding overlaps
overlaps_iff [] = ground arith
overlaps_iff (s ∷ []) = ground arith
overlaps_iff (s ∷ t ∷ ss) =
    let first = t.manifest.source_offset_range.first_offset_key in
    let last = s.manifest.source_offset_range.last_offset_key in
    let (split, join) =
      both_iff (flag (not (str_eq first last)) overlap t.manifest.segment_id) (overlaps (t ∷ ss)) in
    let (flag→, flag←) = flag_iff (not (str_eq first last)) overlap t.manifest.segment_id in
    let (rest→, rest←) = overlaps_iff (t ∷ ss) in
    (
      λ e. (ground (arith, flag→ (split e).0, eq_iff first last), rest→ (split e).1),
      λ (d, ds). join (flag← (ground (arith, d, eq_iff first last)), rest← ds),
    )

All-insert_iff :
    (P : VerifierSegment → Type 0) (before : VerifierSegment → VerifierSegment → Bool)
    (s : VerifierSegment) (ss : List VerifierSegment)
    → All P (insert before s ss) ↔ (P s × All P ss)
unfolding insert
All-insert_iff P before s [] = ground arith
All-insert_iff P before s (t ∷ ss) = ground (arith, All-insert_iff P before s ss)

pub All-sort_iff :
    (P : VerifierSegment → Type 0) (before : VerifierSegment → VerifierSegment → Bool)
    (ss : List VerifierSegment)
    → All P (sort before ss) ↔ All P ss
unfolding sort
All-sort_iff P before [] = ground arith
All-sort_iff P before (s ∷ ss) =
    let (insert→, insert←) = All-insert_iff P before s (sort before ss) in
    let (rest→, rest←) = All-sort_iff P before ss in
    (
      λ h. let (here, rest) = insert→ h in (here, rest→ rest),
      λ (here, rest). insert← (here, rest← rest),
    )

-- The check for missing events passes exactly when neither a segment nor one of its objects reports a
-- gap, every segment reports continuity and spans the offsets from its first to its last object, and
-- no segment starts with the last offset of the one before it in the order of the sequence numbers.
pub recompute_no_missing_event_iff :
    (segments : List VerifierSegment)
    → ((recompute_no_missing_event segments).passed ≡ true)
      ↔ (All IsCorroborated segments × AreDisjoint (sort_by_sequence segments))
unfolding recompute_no_missing_event sort_by_sequence
recompute_no_missing_event_iff segments =
    let before : VerifierSegment → VerifierSegment → Bool =
      λ a b. not (ltb b.manifest.segment_sequence a.manifest.segment_sequence) in
    let sorted = sort before segments in
    let (clean, passes) = outcome_iff (both (event_problems sorted) (overlaps sorted)) in
    let (split, join) = both_iff (event_problems sorted) (overlaps sorted) in
    let (events→, events←) = event_problems_iff sorted in
    let (disjoint→, disjoint←) = overlaps_iff sorted in
    let (all→, all←) = All-sort_iff IsCorroborated before segments in
    (
      λ e. let (p, q) = split (clean e) in (all→ (events→ p), disjoint→ q),
      λ (p, q). passes (join (events← (all← p), disjoint← q)),
    )
