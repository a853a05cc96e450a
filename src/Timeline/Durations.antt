-- ===== src/Timeline/Durations.antt =====
-- `DurationWhere`, `DurationInCurState` and `LongestConsecutiveTrueDuration` of
-- pkg/timeline/operators.go.
pub mod Total
pub mod Longest
use go_temporal_timeline.Prelude.{Bool, ◌&&◌, List, [], ◌∷◌, ◌++◌, if◌then◌else◌}
use go_temporal_timeline.Prelude.Int.{pos, ltb_ℤ, leb_ℤ}
use go_temporal_timeline.GoTime.{Duration, sub, add_duration}
use go_temporal_timeline.GoFloat.{Float64, FloatOps, zero_float}
use go_temporal_timeline.Timeline.Types.{BoolInterval, BoolTimeline, StateTimeline, NumericTimeline}

abbrev pub interval_duration : BoolInterval → Duration
interval_duration i = sub i.end i.start

duration_loop : Duration → BoolTimeline → Duration
duration_loop total [] = total
duration_loop total (i ∷ is) =
    duration_loop (if i.value then add_duration total (interval_duration i) else total) is

unfoldable pub duration_where : BoolTimeline → Duration
unfolding duration_loop add_duration sub
duration_where timeline = duration_loop (pos 0) timeline

-- The optional parameter of Go is a list: its first element, or 0.
abbrev pub min_duration : List Duration → Duration
min_duration [] = pos 0
min_duration (d ∷ ds) = d

longest_step : Duration → Duration → BoolInterval → Duration
longest_step min best i =
    if i.value
    then if leb_ℤ min (interval_duration i) && ltb_ℤ best (interval_duration i)
      then interval_duration i
      else best
    else best

longest_loop : Duration → Duration → BoolTimeline → Duration
longest_loop min best [] = best
longest_loop min best (i ∷ is) = longest_loop min (longest_step min best i) is

-- `maxDuration` at the end of the loop.
unfoldable pub longest_duration : BoolTimeline → List Duration → Duration
unfolding longest_loop longest_step sub
longest_duration timeline ds = longest_loop (min_duration ds) (pos 0) timeline

module _ ⦃f : FloatOps⦄ where
  unfoldable pub longest_consecutive_true_duration : BoolTimeline → List Duration → Float64
  unfolding longest_duration
  longest_consecutive_true_duration [] ds = zero_float
  longest_consecutive_true_duration (i ∷ is) ds = f.seconds (longest_duration (i ∷ is) ds)

  cur_state_loop : NumericTimeline → StateTimeline → NumericTimeline
  cur_state_loop result [] = result
  cur_state_loop result (i ∷ is) =
      cur_state_loop
        (result
          ++ record { value = f.seconds (sub i.end i.start); start = i.start; end = i.end } ∷ [])
        is

  unfoldable pub duration_in_cur_state : StateTimeline → NumericTimeline
  unfolding cur_state_loop sub
  duration_in_cur_state timeline = cur_state_loop [] timeline
