-- ===== src/Temporal/Badges/Streak.antt =====
-- What the operations of the streak maintainer badge come to.
use go_temporal_timeline.Prelude.{
  ◌≡◌, refl, ap, false, String, Option, none, some, ◌⊎◌, List, [], ◌∷◌, length,
}
use go_temporal_timeline.GoTime.{Time}
use go_temporal_timeline.GoSort.{Sorter}
use go_temporal_timeline.GoFloat.{FloatOps, zero_float}
use go_temporal_timeline.GoResult.{Error, Outcome, ok}
use go_temporal_timeline.GoParse.{Parser}
use go_temporal_timeline.Timeline.Types.{Event, EventTimeline, BoolTimeline}
use go_temporal_timeline.Timeline.Combine.{timeline_and, timeline_not}
use go_temporal_timeline.Timeline.Combine.Negation.{and_two_timelines-timeline_not}
use go_temporal_timeline.Timeline.Events.{has_existed}
use go_temporal_timeline.Timeline.Durations.{longest_consecutive_true_duration}
use go_temporal_timeline.Temporal.Types.{number, QueryResult}
use go_temporal_timeline.Temporal.Query.Params.{filter_events_by_type}
use go_temporal_timeline.Temporal.Query.Process.{process_query}
use go_temporal_timeline.Temporal.Query.Params.{bool_timelines}
use go_temporal_timeline.Temporal.Query.Operators.{not_case, longest_case}
use go_temporal_timeline.Temporal.Chunks.Assemble.{classify_loop, process_events}
use go_temporal_timeline.Temporal.Badges.{
  BadgeResult, evaluate_duration, evaluate_streak_maintainer, evaluate_badge,
}
use go_temporal_timeline.Temporal.Types.{TimeRange}
use go_temporal_timeline.Temporal.Badges.Workflows.{
  BadgeRequest, validate_badge_request, streak_maintainer_operations, badge_workflow,
  streak_maintainer_workflow,
}

module _ ⦃p : Parser⦄ ⦃f : FloatOps⦄ ⦃s : Sorter⦄ where
  streak_query : EventTimeline → QueryResult
  streak_query events = record {
    result = number zero_float;
    unit = "seconds";
    event_count = some (length events);
    operation_count = some 4;
  }

  longest-timeline_and-timeline_not :
      (a b : BoolTimeline)
      → longest_consecutive_true_duration (timeline_and (a ∷ timeline_not b ∷ [])) [] ≡ zero_float
  unfolding timeline_and longest_consecutive_true_duration
  longest-timeline_and-timeline_not a b =
      ap (λ t. longest_consecutive_true_duration t []) (and_two_timelines-timeline_not a b)

  process_query-streak :
      (events : EventTimeline)
      → process_query events streak_maintainer_operations ≡ ok (streak_query events)
  unfolding process_query streak_query not_case longest_case bool_timelines
  process_query-streak events =
      ap (λ x. ok (record (streak_query events) { result = number x }))
        (longest-timeline_and-timeline_not
          (has_existed (filter_events_by_type events "payment_successful") "true")
          (has_existed (filter_events_by_type events "payment_due") "true"))

  module _ {A : Type 0} (classify : A → Error ⊎ Event)
      (load : String → Option TimeRange → Outcome (List A)) (now : Time) where
    unearned : String → QueryResult → BadgeResult
    unearned user_id r = record {
      user_id = user_id;
      badge_type = "streak_maintainer";
      earned = false;
      progress = (evaluate_streak_maintainer r.result).progress;
      earned_at = none;
      event_count = r.event_count;
      operation_count = r.operation_count;
    }

    evaluate_badge-streak :
        (events : List A) (user_id : String)
        → f.le (f.literal 1209600 1) zero_float ≡ false
        → evaluate_badge classify now events streak_maintainer_operations "streak_maintainer"
            user_id
          ≡ ok (unearned user_id (streak_query (classify_loop classify [] events)))
    unfolding evaluate_badge process_events evaluate_duration unearned streak_query
    evaluate_badge-streak events user_id h =
        rw (process_query-streak (classify_loop classify [] events)) (rw h refl)

    -- The badge of the streak maintainer is never earned. For every request that is valid and whose
    -- events are loaded, whatever the events are, the workflow returns a result, and it says that
    -- the badge is not earned. Of the arithmetic only this is used: 14 days are not at most 0.
    pub streak_maintainer_workflow-unearned :
        (request : BadgeRequest) (events : List A)
        → f.le (f.literal 1209600 1) zero_float ≡ false
        → validate_badge_request request ≡ ok tt
        → load request.user_id request.time_range ≡ ok events
        → (b : BadgeResult) × (streak_maintainer_workflow classify load now request ≡ ok b)
          × (b.earned ≡ false)
    unfolding badge_workflow unearned
    streak_maintainer_workflow-unearned request events h valid loaded = (
      unearned request.user_id (streak_query (classify_loop classify [] events)),
      rw (valid, loaded, evaluate_badge-streak events request.user_id h) refl,
      refl,
    )
