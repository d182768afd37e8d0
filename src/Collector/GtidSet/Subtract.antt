-- ===== src/Collector/GtidSet/Subtract.antt =====
-- Subtracting intervals from a range keeps exactly the numbers of the range that none of them covers.
use external_database_audit.Base.{ℕ, ◌≡◌, refl, ◌∙◌, not, ◌&&◌, ◌||◌, List, [], ◌∷◌, ◌++◌, arith}
use external_database_audit.Collector.GtidSet.{
  Interval, cut, cut_all, subtract_from, keep_nonempty, subtract_range, within, covers,
}

pub covers-append :
    (n : ℕ) (xs ys : List Interval) → covers n (xs ++ ys) ≡ (covers n xs || covers n ys)
covers-append n [] ys = refl
covers-append n (x ∷ xs) ys = ground (arith, covers-append n xs ys)

covers-cut :
    (n : ℕ) (cover seg : Interval)
    → covers n (cut cover seg) ≡ (within n seg && not (within n cover))
unfolding cut
covers-cut n (a, b) (s, e) = ground arith

covers-cut_all :
    (n : ℕ) (cover : Interval) (segs : List Interval)
    → covers n (cut_all cover segs) ≡ (covers n segs && not (within n cover))
unfolding cut_all
covers-cut_all n cover [] = refl
covers-cut_all n cover (seg ∷ segs) = ground (
  arith,
  covers-append n (cut cover seg) (cut_all cover segs),
  covers-cut n cover seg,
  covers-cut_all n cover segs,
)

covers-subtract_from :
    (n : ℕ) (segs cs : List Interval)
    → covers n (subtract_from segs cs) ≡ (covers n segs && not (covers n cs))
unfolding subtract_from
covers-subtract_from n segs [] = ground arith
covers-subtract_from n segs (c ∷ cs) =
    ground (arith, covers-subtract_from n (cut_all c segs) cs, covers-cut_all n c segs)

covers-keep_nonempty :
    (n : ℕ) (segs : List Interval) → covers n (keep_nonempty segs) ≡ covers n segs
unfolding keep_nonempty
covers-keep_nonempty n [] = refl
covers-keep_nonempty n ((s, e) ∷ segs) = ground (arith, covers-keep_nonempty n segs)

-- A number is left of a range exactly when it is in the range and in none of the intervals that are
-- subtracted, whatever their order and overlaps.
pub covers-subtract_range :
    (n : ℕ) (range : Interval) (cs : List Interval)
    → covers n (subtract_range range cs) ≡ (within n range && not (covers n cs))
unfolding subtract_range
covers-subtract_range n range cs =
    covers-keep_nonempty n (subtract_from (range ∷ []) cs)
    ∙ covers-subtract_from n (range ∷ []) cs
    ∙ ground arith
