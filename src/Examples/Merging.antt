-- ===== src/Examples/Merging.antt =====
-- `mergeBoolIntervals`.
use go_temporal_timeline.Prelude.{◌≡◌, refl, true, [], ◌∷◌, arith, All}
use go_temporal_timeline.GoSort.Insertion.{insertion_sort, insertion_sorter}
use go_temporal_timeline.Timeline.Held.{held, IsProper, IsCanonical}
use go_temporal_timeline.Timeline.Merge.{merge_bool_intervals}
use go_temporal_timeline.Timeline.Merge.Loop.{held-merge_bool_intervals}
use go_temporal_timeline.Timeline.Merge.Canonical.{merge_bool_intervals-IsCanonical}
use go_temporal_timeline.Examples.Samples.{on, off, scattered}

merge-scattered : merge_bool_intervals scattered ≡ on 2 8 ∷ on 10 15 ∷ []
unfolding merge_bool_intervals insertion_sort
merge-scattered = refl

-- Intervals of two values stay apart.
merge-mixed : merge_bool_intervals (on 1 5 ∷ off 2 3 ∷ on 4 9 ∷ []) ≡ on 1 5 ∷ off 2 3 ∷ on 4 9 ∷ []
unfolding merge_bool_intervals insertion_sort
merge-mixed = refl

scattered-IsProper : All IsProper scattered
scattered-IsProper = ground arith

held-merge_bool_intervals_example :
    held true (merge_bool_intervals scattered) 7 ≡ held true scattered 7
held-merge_bool_intervals_example = held-merge_bool_intervals true scattered 7

merge_bool_intervals-IsCanonical_example : IsCanonical (merge_bool_intervals scattered)
merge_bool_intervals-IsCanonical_example =
    merge_bool_intervals-IsCanonical scattered scattered-IsProper
