-- ===== src/Timeline/Combine/Negation.antt =====
-- What becomes of the result of `NOT` when it is used.
use go_temporal_timeline.Prelude.{◌≡◌, [], arith}
use go_temporal_timeline.GoSort.{Sorter}
use go_temporal_timeline.Timeline.Types.{BoolTimeline}
use go_temporal_timeline.Timeline.Merge.Unique.{IsCanonical-eq}
use go_temporal_timeline.Timeline.Combine.{and_two_timelines, timeline_not}
use go_temporal_timeline.Timeline.Combine.Logic.{
  held-and_two_timelines, and_two_timelines-IsCanonical,
}
use go_temporal_timeline.Timeline.Combine.Complement.{timeline_not-All-false, All-false-held}

-- The intersection of any timeline with the result of `NOT` is empty, whatever the two are: `NOT`
-- returns intervals of the value false, and the intersection looks only at true ones.
pub and_two_timelines-timeline_not :
    ⦃s : Sorter⦄ (a b : BoolTimeline) → and_two_timelines a (timeline_not b) ≡ []
and_two_timelines-timeline_not a b =
    IsCanonical-eq _ [] (and_two_timelines-IsCanonical a (timeline_not b)) tt λ t. ground (
      arith,
      held-and_two_timelines a (timeline_not b) t,
      All-false-held (timeline_not b) t (timeline_not-All-false b),
    )
