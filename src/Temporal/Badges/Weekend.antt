-- ===== src/Temporal/Badges/Weekend.antt =====
-- What the operations of the weekend warrior badge come to.
use go_temporal_timeline.Prelude.{◌≡◌, refl, String, Option, ◌⊎◌, inl, List, [], ◌∷◌}
use go_temporal_timeline.GoTime.{Time}
use go_temporal_timeline.GoSort.{Sorter}
use go_temporal_timeline.GoFloat.{FloatOps}
use go_temporal_timeline.GoResult.{Error, wrapped, Outcome, ok, fail}
use go_temporal_timeline.GoParse.{Parser, parsed_duration-inl}
use go_temporal_timeline.Timeline.Types.{Event, EventTimeline}
use go_temporal_timeline.Temporal.Query.Operators.{existed_within_case}
use go_temporal_timeline.Temporal.Query.Process.{process_query}
use go_temporal_timeline.Temporal.Chunks.Assemble.{classify_loop, process_events}
use go_temporal_timeline.Temporal.Badges.{evaluate_badge}
use go_temporal_timeline.Temporal.Types.{TimeRange}
use go_temporal_timeline.Temporal.Badges.Workflows.{
  BadgeRequest, validate_badge_request, weekend_warrior_operations, badge_workflow,
  weekend_warrior_workflow,
}

-- The error of the third operation, for the error `e` of the parser.
abbrev pub window_error : Error → Error
window_error e =
    wrapped "failed to execute operation %s: %w" ("weekend_activity" ∷ [])
      (wrapped "invalid window duration: %w" [] e)

module _ ⦃p : Parser⦄ ⦃f : FloatOps⦄ ⦃s : Sorter⦄ where
  process_query-weekend :
      (events : EventTimeline) (e : Error)
      → p.parse_duration "4w" ≡ inl e
      → process_query events weekend_warrior_operations ≡ fail (window_error e)
  unfolding process_query existed_within_case
  process_query-weekend events e h = rw (parsed_duration-inl "4w" e h) refl

  module _ {A : Type 0} (classify : A → Error ⊎ Event)
      (load : String → Option TimeRange → Outcome (List A)) (now : Time) where
    -- The weekend warrior workflow asks for a window of `4w`. If `time.ParseDuration` rejects this
    -- text, then the workflow fails with the parser's error on every valid request whose events are
    -- loaded, whatever the events are.
    pub weekend_warrior_workflow-fail :
        (request : BadgeRequest) (events : List A) (e : Error)
        → p.parse_duration "4w" ≡ inl e
        → validate_badge_request request ≡ ok tt
        → load request.user_id request.time_range ≡ ok events
        → weekend_warrior_workflow classify load now request
          ≡ fail (
              wrapped "failed to evaluate badge: %w" [] (
                wrapped "failed to process badge events: %w" []
                  (wrapped "failed to process query: %w" [] (window_error e))))
    unfolding badge_workflow evaluate_badge process_events
    weekend_warrior_workflow-fail request events e h valid loaded =
        rw (valid, loaded, process_query-weekend (classify_loop classify [] events) e h) refl
