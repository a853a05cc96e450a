-- ===== src/Examples/Durations.antt =====
-- `DurationWhere` and `LongestConsecutiveTrueDuration`.
use mathlib.Core.List.{Memᴰ}
use go_temporal_timeline.Prelude.{◌≡◌, refl, ◌⊎◌, true, [], ◌∷◌, arith}
use go_temporal_timeline.Prelude.Int.{pos, ◌≤ℤ◌}
use go_temporal_timeline.Timeline.Types.{BoolInterval}
use go_temporal_timeline.Timeline.Held.{held}
use go_temporal_timeline.Timeline.Durations.{
  interval_duration, min_duration, duration_where, longest_duration,
}
use go_temporal_timeline.Timeline.Durations.Total.{count_below, duration_where-count_below}
use go_temporal_timeline.Timeline.Durations.Longest.{
  IsCandidate, Attained, longest_duration_lem, TrueRun-le-longest_duration,
}
use go_temporal_timeline.Examples.Samples.{on, morning, scattered}

where-morning : duration_where morning ≡ pos 8
unfolding duration_where
where-morning = refl

-- Where intervals overlap, the common part counts twice.
where-overlap : duration_where (on 1 5 ∷ on 2 5 ∷ []) ≡ pos 7
unfolding duration_where
where-overlap = refl

longest-morning : longest_duration morning (pos 4 ∷ []) ≡ pos 5
unfolding longest_duration
longest-morning = refl

-- A minimum that no interval meets.
longest-none : longest_duration morning (pos 6 ∷ []) ≡ pos 0
unfolding longest_duration
longest-none = refl

duration_where-count_below_example :
    duration_where morning ≡ pos (count_below 20 (held true morning))
duration_where-count_below_example =
    duration_where-count_below 20 morning (ground arith) (omega arith) (omega arith)

longest_duration_lem_example :
    ((i : BoolInterval)
      → Memᴰ i scattered
      → IsCandidate (min_duration []) i
      → interval_duration i ≤ℤ longest_duration scattered [])
    × ((longest_duration scattered [] ≡ pos 0)
        ⊎ Attained (min_duration []) scattered (longest_duration scattered []))
longest_duration_lem_example = longest_duration_lem scattered []

TrueRun-le-longest_duration_example : pos 4 ≤ℤ longest_duration morning []
TrueRun-le-longest_duration_example =
    TrueRun-le-longest_duration morning [] 2 4 (ground arith) (omega arith) (omega arith)
      (omega arith) (λ t le lt. ground arith)
