-- ===== src/Verifier/Continuity.antt =====
-- The check for missing segments of packages/verifier/src/verify-continuity.ts. A segment is given by
-- the two fields of its manifest that are read; the texts of the problems are left out.
use external_database_audit.Base.{
  ℕ, zero, suc, ◌+◌, ◌-◌, ◌≤◌, ◌<◌, ◌≡◌, ◌⊎◌, String, Bool, true, false, ◌||◌, Option, none, some,
  List, [], ◌∷◌, ◌++◌, ltb, ◌==◌, str_eq, if◌then◌else◌,
}
use external_database_audit.Base.Lists.{length, any}
use external_database_audit.Base.Text.{◌+++◌, decimal}
use external_database_audit.Evidence.CrossSegment.{CrossSegmentFailureRule}
use external_database_audit.Verifier.Report.{VerificationScope}
use external_database_audit.Verifier.Segments.{CheckOutcome}

pub record Numbered : Type 0 where
  pub segment_id : String
  pub segment_sequence : ℕ

-- the ids by their sequence number, in the order in which the numbers came
abbrev pub BySeq : Type 0
BySeq = List (ℕ × List String)

unfoldable pub ids_at : ℕ → BySeq → Option (List String)
ids_at n [] = none
ids_at n ((k, ids) ∷ m) = if k == n then some ids else ids_at n m

unfoldable pub push : ℕ → String → BySeq → BySeq
push n id [] = (n, id ∷ []) ∷ []
push n id ((k, ids) ∷ m) = if k == n then (k, ids ++ id ∷ []) ∷ m else (k, ids) ∷ push n id m

unfoldable pub group : BySeq → List Numbered → BySeq
unfolding push
group m [] = m
group m (s ∷ ss) = group (push s.segment_sequence s.segment_id m) ss

pub data ContinuityProblem : Type 0 where
  duplicate missing outside : ℕ → ContinuityProblem
  scope_reversed : ContinuityProblem
  summary_gap not_continuous object_gap no_objects first_offset last_offset overlap :
      ContinuityProblem
  link : CrossSegmentFailureRule → ContinuityProblem

-- problems with the ids that they blame
abbrev pub Found : Type 0
Found = List ContinuityProblem × List String

abbrev pub both : Found → Found → Found
both (ps, is) (qs, js) = (ps ++ qs, is ++ js)

abbrev pub seq_id : ℕ → String
seq_id n = "seq:" +++ decimal n

unfoldable pub duplicates : BySeq → Found
duplicates [] = ([], [])
duplicates ((k, ids) ∷ m) =
    both (if ltb 1 (length ids) then (duplicate k ∷ [], ids) else ([], [])) (duplicates m)

abbrev pub has : ℕ → BySeq → Bool
has n m = elim (ids_at n m) [ none ↦ false | some ids ↦ true ]

-- `for (let seq = first; seq <= last; seq++)`, with the rounds that are left
unfoldable pub gaps : ℕ → ℕ → BySeq → Found
gaps zero n m = ([], [])
gaps (suc left) n m =
    both (if has n m then ([], []) else (missing n ∷ [], seq_id n ∷ [])) (gaps left (n + 1) m)

unfoldable pub strays : ℕ → ℕ → BySeq → Found
strays first last [] = ([], [])
strays first last ((k, ids) ∷ m) =
    both (if ltb k first || ltb last k then (outside k ∷ [], seq_id k ∷ []) else ([], []))
      (strays first last m)

-- `[...new Set(ids)]`
unfoldable pub dedupe : List String → List String → List String
dedupe seen [] = seen
dedupe seen (id ∷ ids) = dedupe (if any (λ s. str_eq s id) seen then seen else seen ++ id ∷ []) ids

unfoldable pub outcome : Found → CheckOutcome
outcome ([], []) = record { passed = true; offending_ids = [] }
outcome ([], id ∷ ids) = record { passed = false; offending_ids = dedupe [] (id ∷ ids) }
outcome (p ∷ ps, ids) = record { passed = false; offending_ids = dedupe [] ids }

unfoldable pub found : List Numbered → VerificationScope → Found
unfolding group duplicates gaps strays
found segments scope =
    let first = scope.first_segment_sequence in
    let last = scope.last_segment_sequence in
    let by_seq = group [] segments in
    both (duplicates by_seq) (
      both (if ltb last first then (scope_reversed ∷ [], []) else ([], []))
        (both (gaps (last + 1 - first) first by_seq) (strays first last by_seq)))

unfoldable pub recompute_no_missing_segment : List Numbered → VerificationScope → CheckOutcome
unfolding found outcome
recompute_no_missing_segment segments scope = outcome (found segments scope)

-- how many segments bear the number
abbrev pub count : ℕ → List Numbered → ℕ
count n [] = 0
count n (s ∷ ss) = (if s.segment_sequence == n then 1 else 0) + count n ss

-- the numbers of the scope are borne once each, and no other is
pub record IsExactly (scope : VerificationScope) (segments : List Numbered) : Type 0 where
  pub ordered : scope.first_segment_sequence ≤ scope.last_segment_sequence
  pub inside :
      (n : ℕ)
      → scope.first_segment_sequence ≤ n
      → n ≤ scope.last_segment_sequence
      → count n segments ≡ 1
  pub nothing_else :
      (n : ℕ)
      → (n < scope.first_segment_sequence) ⊎ (scope.last_segment_sequence < n)
      → count n segments ≡ 0
