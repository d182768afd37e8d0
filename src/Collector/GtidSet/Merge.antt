-- ===== src/Collector/GtidSet/Merge.antt =====
-- Merging intervals keeps the numbers that they cover, and so does adding an interval to a set.
use external_database_audit.Base.{
  ℕ, ◌≤◌, max, String, ◌≡◌, refl, sym, subst, ◌∙◌, Bool, ◌&&◌, ◌||◌, List, [], ◌∷◌, ◌++◌, arith,
  inl, inr, str_eq, if◌then◌else◌, Bool-cases, eq_iff,
}
use external_database_audit.Base.Dict.{get-set}
use external_database_audit.Base.Sort.{insert, sort}
use external_database_audit.Collector.GtidSet.{
  Interval, GtidInterval, GtidSet, before, merge_from, merge_sorted, merge_intervals, within,
  covers, intervals_for, contains, add,
}
use external_database_audit.Collector.GtidSet.Subtract.{covers-append}

-- the starts do not fall, and none lies below the bound
abbrev AreOrdered : ℕ → List Interval → Type 0
AreOrdered a [] = Unit
AreOrdered a (iv ∷ ivs) = (a ≤ iv.0) × AreOrdered iv.0 ivs

AreOrdered-mono : {a b : ℕ} (ivs : List Interval) → a ≤ b → AreOrdered b ivs → AreOrdered a ivs
AreOrdered-mono [] le ordered = tt
AreOrdered-mono (iv ∷ ivs) le (below, rest) = (omega arith, rest)

insert-AreOrdered :
    (a : ℕ) (iv : Interval) (ivs : List Interval)
    → a ≤ iv.0
    → AreOrdered a ivs
    → AreOrdered a (insert before iv ivs)
unfolding insert
insert-AreOrdered a iv [] below ordered = (below, tt)
insert-AreOrdered a (s, e) ((s2, e2) ∷ ivs) below (first, rest) =
    let kept : Bool → Type 0 = λ b.
      AreOrdered a (if b then (s, e) ∷ (s2, e2) ∷ ivs else (s2, e2) ∷ insert before (s, e) ivs) in
    elim (Bool-cases (before (s, e) (s2, e2))) [
      | inl sooner ↦ subst kept (sym sooner) (below, (ground (arith, sooner), rest))
      | inr later ↦
          subst kept (sym later)
            (first, insert-AreOrdered s2 (s, e) ivs (ground (arith, later)) rest)
    ]

sort-AreOrdered : (ivs : List Interval) → AreOrdered 0 (sort before ivs)
unfolding sort
sort-AreOrdered [] = tt
sort-AreOrdered (iv ∷ ivs) =
    insert-AreOrdered 0 iv (sort before ivs) (omega arith) (sort-AreOrdered ivs)

covers-insert :
    (n : ℕ) (iv : Interval) (ivs : List Interval)
    → covers n (insert before iv ivs) ≡ (within n iv || covers n ivs)
unfolding insert
covers-insert n iv [] = refl
covers-insert n iv (x ∷ ivs) = ground (arith, covers-insert n iv ivs)

covers-sort : (n : ℕ) (ivs : List Interval) → covers n (sort before ivs) ≡ covers n ivs
unfolding sort
covers-sort n [] = refl
covers-sort n (iv ∷ ivs) = ground (arith, covers-insert n iv (sort before ivs), covers-sort n ivs)

covers-merge_from :
    (n : ℕ) (last : Interval) (ivs : List Interval)
    → AreOrdered last.0 ivs
    → covers n (merge_from last ivs) ≡ (within n last || covers n ivs)
unfolding merge_from
covers-merge_from n last [] ordered = refl
covers-merge_from n (s, e) ((s2, e2) ∷ ivs) (below, ordered) = ground (
  arith,
  covers-merge_from n (s, max e e2) ivs (AreOrdered-mono ivs below ordered),
  covers-merge_from n (s2, e2) ivs ordered,
)

covers-merge_sorted :
    (n : ℕ) (ivs : List Interval) → AreOrdered 0 ivs → covers n (merge_sorted ivs) ≡ covers n ivs
unfolding merge_sorted
covers-merge_sorted n [] ordered = refl
covers-merge_sorted n (iv ∷ ivs) ordered = covers-merge_from n iv ivs ordered.1

-- Merging a list of intervals, in any order and with any overlaps, keeps exactly the numbers that
-- they cover.
pub covers-merge_intervals :
    (n : ℕ) (ivs : List Interval) → covers n (merge_intervals ivs) ≡ covers n ivs
unfolding merge_intervals
covers-merge_intervals n ivs =
    covers-merge_sorted n (sort before ivs) (sort-AreOrdered ivs) ∙ covers-sort n ivs

-- After an interval was added to a set, the set contains what it contained and, under the key of the
-- interval, the numbers of the interval; nothing else.
pub contains-add :
    (k : String) (n : ℕ) (iv : GtidInterval) (s : GtidSet)
    → contains k n (add iv s) ≡ (contains k n s || (str_eq iv.key k && within n (iv.start, iv.end)))
unfolding contains add intervals_for
contains-add k n iv s = ground (
  arith,
  eq_iff iv.key k,
  get-set iv.key k (merge_intervals (intervals_for iv.key s ++ (iv.start, iv.end) ∷ [])) s,
  covers-merge_intervals n (intervals_for iv.key s ++ (iv.start, iv.end) ∷ []),
  covers-append n (intervals_for iv.key s) ((iv.start, iv.end) ∷ []),
)
