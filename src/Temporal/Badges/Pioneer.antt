-- ===== src/Temporal/Badges/Pioneer.antt =====
-- What the operations of the feature pioneer badge come to.
use go_temporal_timeline.Prelude.{◌≡◌, ap, ◌<◌, ℕ, some, inr, [], length, arith}
use go_temporal_timeline.Prelude.Int.{pos}
use go_temporal_timeline.GoSort.{Sorter}
use go_temporal_timeline.GoFloat.{FloatOps}
use go_temporal_timeline.GoResult.{ok}
use go_temporal_timeline.GoParse.{Parser, parsed_duration-inr}
use go_temporal_timeline.Timeline.Types.{EventTimeline, BoolTimeline}
use go_temporal_timeline.Timeline.Held.{IsCanonical}
use go_temporal_timeline.Timeline.Merge.Unique.{IsCanonical-eq}
use go_temporal_timeline.Timeline.Combine.{timeline_and, and_two_timelines}
use go_temporal_timeline.Timeline.Combine.Logic.{
  held-and_two_timelines, and_two_timelines-IsCanonical,
}
use go_temporal_timeline.Timeline.Events.{has_existed_within}
use go_temporal_timeline.Timeline.Events.Existed.{has_existed_within-IsCanonical}
use go_temporal_timeline.Timeline.Durations.{longest_consecutive_true_duration}
use go_temporal_timeline.Temporal.Types.{number}
use go_temporal_timeline.Temporal.Query.Params.{filter_events_by_type, bool_timelines}
use go_temporal_timeline.Temporal.Query.Operators.{existed_within_case, longest_case}
use go_temporal_timeline.Temporal.Query.Process.{process_query}
use go_temporal_timeline.Temporal.Badges.Workflows.{feature_pioneer_operations}

and_two_timelines_self : ⦃s : Sorter⦄ (a : BoolTimeline) → IsCanonical a → and_two_timelines a a ≡ a
and_two_timelines_self a c =
    IsCanonical-eq _ a (and_two_timelines-IsCanonical a a) c
      λ t. ground (arith, held-and_two_timelines a a t)

module _ ⦃p : Parser⦄ ⦃f : FloatOps⦄ ⦃s : Sorter⦄ where
  -- The query of the feature pioneer badge looks only at how often the feature is used: where `24h`
  -- is parsed as a positive duration, its result is the longest interval of `HasExistedWithin` on
  -- the events of the type `new_feature_used`. When the feature was used first plays no part.
  pub process_query-pioneer :
      (events : EventTimeline) (day : ℕ)
      → 0 < day
      → p.parse_duration "24h" ≡ inr (pos day)
      → process_query events feature_pioneer_operations
        ≡ ok (record {
          result = number (
              longest_consecutive_true_duration
                (has_existed_within
                  (filter_events_by_type events "new_feature_used")
                  "true"
                  (pos day))
                []);
          unit = "seconds";
          event_count = some (length events);
          operation_count = some 4;
        })
  unfolding process_query existed_within_case longest_case bool_timelines timeline_and
  process_query-pioneer events day h e = rw (parsed_duration-inr "24h" (pos day) e) (
      ap
        (λ t. ok (record {
          result = number (longest_consecutive_true_duration t []);
          unit = "seconds";
          event_count = some (length events);
          operation_count = some 4;
        }))
        (and_two_timelines_self _ (
          has_existed_within-IsCanonical (filter_events_by_type events "new_feature_used") "true"
            day h)))
