-- ===== src/Examples/Badges.antt =====
-- The badges' queries and workflows.
use go_temporal_timeline.Prelude.{
  ◌≡◌, refl, false, String, Option, none, some, ◌⊎◌, inl, inr, List, [], ◌∷◌, str_eq, if◌then◌else◌,
  arith,
}
use go_temporal_timeline.Prelude.Int.{pos}
use go_temporal_timeline.GoTime.{Duration}
use go_temporal_timeline.GoValue.{no_fields}
use go_temporal_timeline.GoResult.{Error, errorf, wrapped, Outcome, ok, fail}
use go_temporal_timeline.GoParse.{Parser}
use go_temporal_timeline.GoSort.Insertion.{insertion_sorter}
use go_temporal_timeline.Timeline.Types.{Event}
use go_temporal_timeline.Timeline.Events.{has_existed_within}
use go_temporal_timeline.Timeline.Durations.{longest_consecutive_true_duration}
use go_temporal_timeline.Temporal.Types.{number}
use go_temporal_timeline.Temporal.Query.Params.{filter_events_by_type}
use go_temporal_timeline.Temporal.Query.Process.{process_query}
use go_temporal_timeline.Temporal.Badges.{BadgeResult}
use go_temporal_timeline.Temporal.Types.{TimeRange}
use go_temporal_timeline.Temporal.Badges.Workflows.{
  BadgeRequest, validate_badge_request, feature_pioneer_operations, streak_maintainer_workflow,
  weekend_warrior_workflow,
}
use go_temporal_timeline.Temporal.Badges.Streak.{streak_maintainer_workflow-unearned}
use go_temporal_timeline.Temporal.Badges.Weekend.{window_error, weekend_warrior_workflow-fail}
use go_temporal_timeline.Temporal.Badges.Pioneer.{process_query-pioneer}
use go_temporal_timeline.Examples.Samples.{toy_floats}

-- A parser that knows `24h` and nothing else.
abbrev pub parse_day : String → Error ⊎ Duration
parse_day s =
    if str_eq s "24h"
    then inr (pos 86400000000000)
    else inl (errorf "time: invalid duration" (s ∷ []))

abbrev pub day_parser : Parser
day_parser = record { parse_duration = parse_day }

abbrev used : Event
used = record { timestamp = 100; type = "new_feature_used"; value = "true"; attrs = no_fields }

abbrev pub paid : Event
paid = record { timestamp = 200; type = "payment_successful"; value = "true"; attrs = no_fields }

-- Events that are classified already.
abbrev pub as_event : Event → Error ⊎ Event
as_event e = inr e

abbrev load_two : String → Option TimeRange → Outcome (List Event)
load_two user_id range = ok (used ∷ paid ∷ [])

abbrev request : BadgeRequest
request = record {
  user_id = "ann";
  badge_type = "streak_maintainer";
  time_range = none;
  filters = no_fields;
  parameters = no_fields;
}

request-valid : validate_badge_request request ≡ ok tt
unfolding validate_badge_request
request-valid = refl

streak_maintainer_workflow-unearned_example :
    (b : BadgeResult) × (streak_maintainer_workflow as_event load_two 7 ⦃p = day_parser⦄
        ⦃f = toy_floats⦄ request
      ≡ ok b)
    × (b.earned ≡ false)
streak_maintainer_workflow-unearned_example =
    streak_maintainer_workflow-unearned ⦃p = day_parser⦄ ⦃f = toy_floats⦄ as_event load_two 7
      request (used ∷ paid ∷ []) refl request-valid refl

weekend_warrior_workflow-fail_example :
    weekend_warrior_workflow as_event load_two 7 ⦃p = day_parser⦄ ⦃f = toy_floats⦄ request
    ≡ fail (
        wrapped "failed to evaluate badge: %w" [] (
          wrapped "failed to process badge events: %w" [] (
            wrapped "failed to process query: %w" []
              (window_error (errorf "time: invalid duration" ("4w" ∷ []))))))
weekend_warrior_workflow-fail_example =
    weekend_warrior_workflow-fail ⦃p = day_parser⦄ ⦃f = toy_floats⦄ as_event load_two 7 request
      (used ∷ paid ∷ []) (errorf "time: invalid duration" ("4w" ∷ [])) refl request-valid refl

process_query-pioneer_example :
    process_query ⦃p = day_parser⦄ ⦃f = toy_floats⦄ (used ∷ paid ∷ []) feature_pioneer_operations
    ≡ ok (record {
      result = number (
          longest_consecutive_true_duration ⦃f = toy_floats⦄
            (has_existed_within
              (filter_events_by_type (used ∷ paid ∷ []) "new_feature_used")
              "true"
              (pos 86400000000000))
            []);
      unit = "seconds";
      event_count = some 2;
      operation_count = some 4;
    })
process_query-pioneer_example =
    process_query-pioneer ⦃p = day_parser⦄ ⦃f = toy_floats⦄ (used ∷ paid ∷ []) 86400000000000
      (omega arith) refl
