-- ===== src/Collector/GtidSet.antt =====
-- The arithmetic of GTID sets: services/cdc-collector/src/completeness/gtid.ts. Sequence numbers are
-- natural numbers; an interval may be empty (its start after its end), as a malformed token gives.
-- A set keeps its intervals by key, in the order in which the keys first came. The parsers of the
-- two engines and `toString` are not modelled.
pub mod Merge
pub mod Subtract
pub mod Missing
mod Tests
use external_database_audit.Base.{
  ℕ, suc, ◌+◌, ◌-◌, max, min, String, Bool, true, false, not, ◌&&◌, ◌||◌, Option, none, some, List,
  [], ◌∷◌, ◌++◌, map, ltb, leb, ◌==◌, if◌then◌else◌,
}
use mathlib.Core.List.{flat_map}
use external_database_audit.Base.Dict
use external_database_audit.Base.Dict.{Dict}
use external_database_audit.Base.Lists.{any, length}
use external_database_audit.Base.Sort.{sort}

abbrev pub Interval : Type 0
Interval = ℕ × ℕ

pub record GtidInterval : Type 0 where
  pub key : String
  pub start : ℕ
  pub end : ℕ

abbrev pub GtidSet : Type 0
GtidSet = Dict (List Interval)

-- `a[0] - b[0] || a[1] - b[1]` is negative or zero
abbrev pub before : Interval → Interval → Bool
before a b = ltb a.0 b.0 || (a.0 == b.0 && leb a.1 b.1)

-- the loop of `mergeIntervals`, with the last interval of `out` in hand
unfoldable pub merge_from : Interval → List Interval → List Interval
merge_from last [] = last ∷ []
merge_from last (cur ∷ rest) =
    let joined = merge_from (last.0, max last.1 cur.1) rest in
    let apart = last ∷ merge_from cur rest in if leb cur.0 (last.1 + 1) then joined else apart

unfoldable pub merge_sorted : List Interval → List Interval
unfolding merge_from
merge_sorted [] = []
merge_sorted (first ∷ rest) = merge_from first rest

unfoldable pub merge_intervals : List Interval → List Interval
unfolding merge_sorted
merge_intervals ivs = merge_sorted (sort before ivs)

-- what is left of one segment outside one covering interval
unfoldable pub cut : Interval → Interval → List Interval
cut cover seg =
    if ltb cover.1 seg.0 || ltb seg.1 cover.0
    then seg ∷ []
    else (if ltb seg.0 cover.0 then (seg.0, cover.0 - 1) ∷ [] else [])
      ++ (if ltb cover.1 seg.1 then (cover.1 + 1, seg.1) ∷ [] else [])

unfoldable pub cut_all : Interval → List Interval → List Interval
cut_all cover [] = []
cut_all cover (seg ∷ segs) = cut cover seg ++ cut_all cover segs

unfoldable pub subtract_from : List Interval → List Interval → List Interval
subtract_from segments [] = segments
subtract_from segments (cover ∷ covers) = subtract_from (cut_all cover segments) covers

unfoldable pub keep_nonempty : List Interval → List Interval
keep_nonempty [] = []
keep_nonempty (seg ∷ segs) =
    if leb seg.0 seg.1 then seg ∷ keep_nonempty segs else keep_nonempty segs

unfoldable pub subtract_range : Interval → List Interval → List Interval
subtract_range range covers = keep_nonempty (subtract_from (range ∷ []) covers)

abbrev or_empty : Option (List Interval) → List Interval
or_empty none = []
or_empty (some ivs) = ivs

unfoldable pub intervals_for : String → GtidSet → List Interval
intervals_for key s = or_empty (Dict.get key s)

unfoldable pub add : GtidInterval → GtidSet → GtidSet
add iv s = Dict.set iv.key (merge_intervals (intervals_for iv.key s ++ (iv.start, iv.end) ∷ [])) s

unfoldable pub add_all : List GtidInterval → GtidSet → GtidSet
add_all [] s = s
add_all (iv ∷ ivs) s = add_all ivs (add iv s)

abbrev pub within : ℕ → Interval → Bool
within n iv = leb iv.0 n && leb n iv.1

abbrev pub covers : ℕ → List Interval → Bool
covers n ivs = any (within n) ivs

unfoldable pub contains : String → ℕ → GtidSet → Bool
unfolding intervals_for
contains key n s = covers n (intervals_for key s)

abbrev pub last_end : List Interval → Option ℕ
last_end [] = none
last_end (iv ∷ []) = some iv.1
last_end (iv ∷ rest) = last_end rest

-- none is `Number.NEGATIVE_INFINITY`
unfoldable pub high_watermark : String → GtidSet → Option ℕ
unfolding intervals_for
high_watermark key s = last_end (intervals_for key s)

-- `.filter(([, ivs]) => ivs.length > 1)`
unfoldable pub internal_gap_keys : GtidSet → List String
internal_gap_keys [] = []
internal_gap_keys ((k, ivs) ∷ s) =
    if ltb 1 (length ivs) then k ∷ internal_gap_keys s else internal_gap_keys s

-- the inner loop of `missingBelowWatermark` over the intervals of one key of the source
unfoldable pub missing_for : ℕ → List Interval → List Interval → List Interval
missing_for hw own [] = []
missing_for hw own ((s, e) ∷ rest) =
    (if ltb (min e hw) s then [] else subtract_range (s, min e hw) own) ++ missing_for hw own rest

abbrev keyed : String → List Interval → List GtidInterval
keyed k ivs = map (λ iv. record { key = k; start = iv.0; end = iv.1 }) ivs

-- a key that was never consumed has no watermark and confirms no gap
abbrev missing_of : GtidSet → String → List Interval → List Interval
missing_of own k ivs = elim (high_watermark k own) [
  | none ↦ []
  | some hw ↦ missing_for hw (intervals_for k own) ivs
]

unfoldable pub missing_below_watermark : GtidSet → GtidSet → List GtidInterval
unfolding missing_for high_watermark intervals_for
missing_below_watermark own [] = []
missing_below_watermark own ((k, ivs) ∷ source) =
    keyed k (missing_of own k ivs) ++ missing_below_watermark own source
