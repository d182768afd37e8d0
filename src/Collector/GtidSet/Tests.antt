-- ===== src/Collector/GtidSet/Tests.antt =====
-- Runs of the set arithmetic, and the theorems at them.
use external_database_audit.Base.{String, ◌≡◌, refl, true, [], ◌∷◌}
use external_database_audit.Base.Dict
use external_database_audit.Base.Sort.{sort, insert}
use external_database_audit.Collector.GtidSet
use external_database_audit.Collector.GtidSet.{
  Interval, GtidInterval, GtidSet, merge_intervals, subtract_range, covers, within, contains, add,
  missing_below_watermark, high_watermark, missing_for,
}
use external_database_audit.Collector.GtidSet.Missing.{
  reports, holds, missing_below_watermark-exact,
}

abbrev server : String
server = "3E11FA47"

abbrev consumed : GtidSet
consumed = (server, (1, 3) ∷ (6, 9) ∷ []) ∷ []

abbrev source : GtidSet
source = (server, (1, 12) ∷ []) ∷ ("other", (1, 5) ∷ []) ∷ []

merge_run :
    merge_intervals ((5, 7) ∷ (1, 3) ∷ (4, 4) ∷ (10, 12) ∷ (11, 11) ∷ []) ≡ (1, 7) ∷ (10, 12) ∷ []
unfolding merge_intervals GtidSet.merge_sorted GtidSet.merge_from sort insert
merge_run = refl

subtract_run : subtract_range (1, 10) ((3, 4) ∷ (9, 20) ∷ []) ≡ (1, 2) ∷ (5, 8) ∷ []
unfolding subtract_range GtidSet.subtract_from GtidSet.cut_all GtidSet.cut GtidSet.keep_nonempty
subtract_run = refl

missing_run :
    missing_below_watermark consumed source ≡ record { key = server; start = 4; end = 5 } ∷ []
unfolding missing_below_watermark missing_for high_watermark GtidSet.intervals_for Dict.get
    subtract_range GtidSet.subtract_from GtidSet.cut_all GtidSet.cut GtidSet.keep_nonempty
missing_run = refl

missing_below_watermark-exact_example :
    reports server 4 (missing_below_watermark consumed source) ≡ true
unfolding holds high_watermark contains GtidSet.intervals_for Dict.get
missing_below_watermark-exact_example = missing_below_watermark-exact server 4 consumed source
