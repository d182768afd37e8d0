-- ===== src/Verifier/Grouping.antt =====
-- The parts of the check for missing segments: when each finds nothing, and what the map of the
-- sequence numbers holds.
use external_database_audit.Base.{
  ℕ, zero, suc, ◌+◌, ◌≤◌, ◌<◌, ◌≡◌, ◌↔◌, inl, inr, refl, subst, String, Bool, true, false, ◌||◌,
  Option, none, some, List, [], ◌∷◌, ◌++◌, ltb, ◌==◌, if◌then◌else◌, arith, Bool-cases, if-cases,
}
use external_database_audit.Base.Lists.{length, length-append, All}
use external_database_audit.Verifier.Continuity.{
  Numbered, BySeq, ids_at, push, group, ContinuityProblem, duplicate, missing, outside, Found, both,
  seq_id, duplicates, has, gaps, strays, outcome, count,
}

abbrev pub IsClean : Found → Type 0
IsClean f = (f.0 ≡ []) × (f.1 ≡ [])

pub append-nil_iff {ℓ} : {A : Type ℓ} (xs ys : List A) → (xs ++ ys ≡ []) ↔ ((xs ≡ []) × (ys ≡ []))
append-nil_iff [] ys = ground arith
append-nil_iff (x ∷ xs) ys = ground arith

pub both_iff : (f g : Found) → IsClean (both f g) ↔ (IsClean f × IsClean g)
both_iff (ps, is) (qs, js) = ground (arith, append-nil_iff ps qs, append-nil_iff is js)

pub outcome_iff : (f : Found) → ((outcome f).passed ≡ true) ↔ IsClean f
unfolding outcome
outcome_iff ([], []) = ground arith
outcome_iff ([], id ∷ ids) = ground arith
outcome_iff (p ∷ ps, ids) = ground arith

-- a problem that a test finds
pub found_iff :
    (b : Bool) (p : ContinuityProblem) (ids : List String)
    → IsClean (if b then (p ∷ [], ids) else ([], [])) ↔ (b ≡ false)
found_iff true p ids = ground arith
found_iff false p ids = ground arith

abbrev pub HasOne : ℕ × List String → Type 0
HasOne e = length e.1 ≤ 1

pub duplicates_iff : (m : BySeq) → IsClean (duplicates m) ↔ All HasOne m
unfolding duplicates
duplicates_iff [] = ground arith
duplicates_iff ((k, ids) ∷ m) = ground (
  arith,
  both_iff (if ltb 1 (length ids) then (duplicate k ∷ [], ids) else ([], [])) (duplicates m),
  found_iff (ltb 1 (length ids)) (duplicate k) ids,
  duplicates_iff m,
)

abbrev pub IsInside : ℕ → ℕ → ℕ × List String → Type 0
IsInside first last e = (first ≤ e.0) × (e.0 ≤ last)

pub strays_iff :
    (first last : ℕ) (m : BySeq) → IsClean (strays first last m) ↔ All (IsInside first last) m
unfolding strays
strays_iff first last [] = ground arith
strays_iff first last ((k, ids) ∷ m) = ground (
  arith,
  both_iff (if ltb k first || ltb last k then (outside k ∷ [], seq_id k ∷ []) else ([], []))
      (strays first last m),
  found_iff (ltb k first || ltb last k) (outside k) (seq_id k ∷ []),
  strays_iff first last m,
)

absent_iff :
    (b : Bool) (p : ContinuityProblem) (ids : List String)
    → IsClean (if b then ([], []) else (p ∷ [], ids)) ↔ (b ≡ true)
absent_iff true p ids = ground arith
absent_iff false p ids = ground arith

gap_iff :
    (left n : ℕ) (m : BySeq)
    → IsClean (gaps (suc left) n m) ↔ ((has n m ≡ true) × IsClean (gaps left (n + 1) m))
unfolding gaps
gap_iff left n m =
    let (split, join) =
      both_iff (if has n m then ([], []) else (missing n ∷ [], seq_id n ∷ []))
        (gaps left (n + 1) m) in
    let (here, there) = absent_iff (has n m) (missing n) (seq_id n ∷ []) in
    (λ c. (here (split c).0, (split c).1), λ (h, c). join (there h, c))

pub gaps→ :
    (left n k : ℕ) (m : BySeq) → IsClean (gaps left n m) → n ≤ k → k < n + left → has k m ≡ true
gaps→ zero n k m clean from to = absurd (omega arith)
gaps→ (suc left) n k m clean from to =
    let (here, later) = (gap_iff left n m).0 clean in
    elim (Bool-cases (k == n)) [
      | inl same ↦ subst (λ j. has j m ≡ true) (ground arith) here
      | inr other ↦ gaps→ left (n + 1) k m later (ground arith) (ground arith)
    ]

pub gaps← :
    (left n : ℕ) (m : BySeq)
    → ((k : ℕ) → n ≤ k → k < n + left → has k m ≡ true)
    → IsClean (gaps left n m)
unfolding gaps
gaps← zero n m there = (refl, refl)
gaps← (suc left) n m there = (gap_iff left n m).1 (
  there n (omega arith) (omega arith),
  gaps← left (n + 1) m (λ k from to. there k (omega arith) (omega arith)),
)

-- no number stands twice, and each has an id
abbrev pub IsGrouped : BySeq → Type 0
IsGrouped [] = Unit
IsGrouped ((k, ids) ∷ m) = (ids_at k m ≡ none) × (0 < length ids) × IsGrouped m

abbrev pub ids_of : Option (List String) → List String
ids_of none = []
ids_of (some ids) = ids

ids_at-push :
    (n j : ℕ) (id : String) (m : BySeq)
    → ids_at j (push n id m)
      ≡ (if n == j then some (ids_of (ids_at n m) ++ id ∷ []) else ids_at j m)
unfolding ids_at push
ids_at-push n j id [] = ground arith
ids_at-push n j id ((k, ids) ∷ m) = ground (arith, ids_at-push n j id m)

push-IsGrouped : (n : ℕ) (id : String) (m : BySeq) → IsGrouped m → IsGrouped (push n id m)
unfolding push ids_at
push-IsGrouped n id [] h = (refl, omega arith, tt)
push-IsGrouped n id ((k, ids) ∷ m) (free, some_id, h) =
    ground (arith, length-append ids (id ∷ []), ids_at-push n k id m, push-IsGrouped n id m h)

pub group-IsGrouped : (m : BySeq) (ss : List Numbered) → IsGrouped m → IsGrouped (group m ss)
unfolding group
group-IsGrouped m [] h = h
group-IsGrouped m (s ∷ ss) h =
    group-IsGrouped (push s.segment_sequence s.segment_id m) ss
      (push-IsGrouped s.segment_sequence s.segment_id m h)

pub length-group :
    (n : ℕ) (m : BySeq) (ss : List Numbered)
    → length (ids_of (ids_at n (group m ss))) ≡ length (ids_of (ids_at n m)) + count n ss
unfolding group
length-group n m [] = omega arith
length-group n m (s ∷ ss) = ground (
  arith,
  length-group n (push s.segment_sequence s.segment_id m) ss,
  ids_at-push s.segment_sequence n s.segment_id m,
  length-append (ids_of (ids_at s.segment_sequence m)) (s.segment_id ∷ []),
)

module _ (P : ℕ × List String → Type 0) where
  pub All→ : (m : BySeq) (k : ℕ) (ids : List String) → All P m → ids_at k m ≡ some ids → P (k, ids)
  unfolding ids_at
  All→ [] k ids h e = absurd (cc)
  All→ ((j, js) ∷ m) k ids (p, h) e = elim (if-cases (j == k) (some js) (ids_at k m) e) [
    | inl (same, f) ↦
        let named : j ≡ k = ground arith in
        let listed : js ≡ ids = cc in
        subst (λ n. P (n, ids)) named (subst (λ is. P (j, is)) listed p)
    | inr (other, f) ↦ All→ m k ids h f
  ]

  pub All← :
      (m : BySeq)
      → IsGrouped m
      → ((k : ℕ) (ids : List String) → ids_at k m ≡ some ids → P (k, ids))
      → All P m
  unfolding ids_at
  All← [] g every = tt
  All← ((j, js) ∷ m) (free, some_id, g) every =
      (every j js (ground arith), All← m g (λ k ids e. every k ids (ground arith)))
