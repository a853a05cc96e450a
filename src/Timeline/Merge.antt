-- ===== src/Timeline/Merge.antt =====
-- `mergeBoolIntervals` of pkg/timeline/operators.go.
pub mod Loop
pub mod Canonical
pub mod Unique
use go_temporal_timeline.Prelude.{Bool, List, [], ◌∷◌, ◌++◌, ◌&&◌, ◌||◌, bool_eq, if◌then◌else◌}
use go_temporal_timeline.GoTime.{Time, after, equal}
use go_temporal_timeline.GoSort.{Sorter, sort_by}
use go_temporal_timeline.Timeline.Types.{BoolInterval, BoolTimeline}

-- The variables of the loop: `merged` and `current`.
pub record MergeState : Type 0 where
  pub merged : BoolTimeline
  pub current : BoolInterval

-- The two intervals have one value, and the second begins no later than the first ends.
pub joins : BoolInterval → BoolInterval → Bool
joins current next =
    bool_eq current.value next.value
    && (after current.end next.start || equal current.end next.start)

abbrev pub extend : BoolInterval → BoolInterval → BoolInterval
extend current next =
    if after next.end current.end then record current { end = next.end } else current

merge_step : MergeState → BoolInterval → MergeState
unfolding joins
merge_step s next =
    if joins s.current next
    then record s { current = extend s.current next }
    else record s { merged = s.merged ++ s.current ∷ []; current = next }

merge_loop : MergeState → BoolTimeline → BoolTimeline
merge_loop s [] = s.merged ++ s.current ∷ []
merge_loop s (next ∷ rest) = merge_loop (merge_step s next) rest

merge_sorted : BoolTimeline → BoolTimeline
merge_sorted [] = []
merge_sorted (first ∷ rest) = merge_loop (record { merged = []; current = first }) rest

unfoldable pub merge_bool_intervals : ⦃s : Sorter⦄ → BoolTimeline → BoolTimeline
unfolding merge_sorted merge_loop merge_step
merge_bool_intervals intervals = merge_sorted (sort_by (λ i. i.start) intervals)
