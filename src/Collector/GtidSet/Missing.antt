-- ===== src/Collector/GtidSet/Missing.antt =====
-- What the collector reports as missing: the numbers of the source at or below the watermark that it
-- did not consume itself.
use external_database_audit.Base.{
  ℕ, min, String, ◌≡◌, refl, Bool, false, not, ◌&&◌, ◌||◌, Option, none, some, List, [], ◌∷◌, ◌++◌,
  arith, str_eq, ltb, leb, if◌then◌else◌, eq_iff,
}
use external_database_audit.Collector.GtidSet.{
  Interval, GtidInterval, GtidSet, within, covers, intervals_for, contains, subtract_range,
  missing_for, missing_of, keyed, high_watermark, missing_below_watermark,
}
use external_database_audit.Collector.GtidSet.Subtract.{covers-append, covers-subtract_range}

-- Of the intervals of one key, exactly the numbers at or below the watermark are missing that the
-- source covers and the consumer does not.
pub covers-missing_for :
    (n hw : ℕ) (own source : List Interval)
    → covers n (missing_for hw own source) ≡ (covers n source && (leb n hw && not (covers n own)))
unfolding missing_for
covers-missing_for n hw own [] = refl
covers-missing_for n hw own ((s, e) ∷ rest) = ground (
  arith,
  covers-append n (if ltb (min e hw) s then [] else subtract_range (s, min e hw) own)
      (missing_for hw own rest),
  covers-subtract_range n (s, min e hw) own,
  covers-missing_for n hw own rest,
)

-- whether a list of reported intervals has the number under the key
unfoldable pub reports : String → ℕ → List GtidInterval → Bool
reports k n [] = false
reports k n (iv ∷ ivs) = (str_eq iv.key k && within n (iv.start, iv.end)) || reports k n ivs

-- whether some entry of the set, under that key, covers the number
unfoldable pub holds : String → ℕ → GtidSet → Bool
holds k n [] = false
holds k n ((j, ivs) ∷ s) = (str_eq j k && covers n ivs) || holds k n s

-- whether a number lies at or below the watermark, if there is one
abbrev pub reached : Option ℕ → ℕ → Bool
reached none n = false
reached (some hw) n = leb n hw

reports-append :
    (k : String) (n : ℕ) (xs ys : List GtidInterval)
    → reports k n (xs ++ ys) ≡ (reports k n xs || reports k n ys)
unfolding reports
reports-append k n [] ys = refl
reports-append k n (x ∷ xs) ys = ground (arith, reports-append k n xs ys)

reports-keyed :
    (k j : String) (n : ℕ) (ivs : List Interval)
    → reports k n (keyed j ivs) ≡ (str_eq j k && covers n ivs)
unfolding reports
reports-keyed k j n [] = ground arith
reports-keyed k j n (iv ∷ ivs) = ground (arith, reports-keyed k j n ivs)

covers-missing_of :
    (k : String) (n : ℕ) (own : GtidSet) (ivs : List Interval)
    → covers n (missing_of own k ivs)
      ≡ (covers n ivs && (reached (high_watermark k own) n && not (contains k n own)))
unfolding contains
covers-missing_of k n own ivs =
    elim (high_watermark k own)
      as (λ mark.
        covers n (elim mark as (λ x. List Interval) [
          | none ↦ []
          | some hw ↦ missing_for hw (intervals_for k own) ivs
        ])
        ≡ (covers n ivs && (reached mark n && not (contains k n own)))) [
          | none ↦ ground arith
          | some hw ↦ covers-missing_for n hw (intervals_for k own) ivs
        ]

-- The collector reports a number under a key as missing exactly when the source holds it under the
-- key, the consumed set has a watermark for the key that has reached the number, and the consumed
-- set does not contain it: no gap is missed, nothing consumed is reported, and nothing above the
-- watermark or under a key that was never consumed is reported.
pub missing_below_watermark-exact :
    (k : String) (n : ℕ) (own source : GtidSet)
    → reports k n (missing_below_watermark own source)
      ≡ (holds k n source && (reached (high_watermark k own) n && not (contains k n own)))
unfolding missing_below_watermark reports holds
missing_below_watermark-exact k n own [] = refl
missing_below_watermark-exact k n own ((j, ivs) ∷ source) = ground (
  arith,
  eq_iff j k,
  reports-append k n (keyed j (missing_of own j ivs)) (missing_below_watermark own source),
  reports-keyed k j n (missing_of own j ivs),
  covers-missing_of j n own ivs,
  missing_below_watermark-exact k n own source,
)
