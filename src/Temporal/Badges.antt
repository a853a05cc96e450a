-- ===== src/Temporal/Badges.antt =====
-- Badges: `EvaluateBadgeActivity` and the functions that it calls in pkg/temporal/activities.go,
-- `validateBadgeRequest` and the workflows of pkg/temporal/badging_workflows.go. The five functions
-- that evaluate a result differ in the duration that they require.
pub mod Workflows
pub mod Streak
pub mod Weekend
pub mod Pioneer
use go_temporal_timeline.Prelude.{
  ℕ, Bool, true, false, String, Option, none, some, ◌⊎◌, inl, inr, List, [], ◌∷◌, str_eq,
  if◌then◌else◌,
}
use go_temporal_timeline.Prelude.Int.{pos, ltb_ℤ}
use go_temporal_timeline.GoTime.{Time, Duration, sub}
use go_temporal_timeline.GoSort.{Sorter}
use go_temporal_timeline.GoFloat.{Float64, FloatOps, zero_float, float_gt}
use go_temporal_timeline.GoResult.{
  Error, errorf, wrapped, Outcome, ok, fail, panic, ◌>>=◌, wrap_error,
}
use go_temporal_timeline.GoParse.{Parser}
use go_temporal_timeline.Timeline.Types.{Event, NumericTimeline}
use go_temporal_timeline.Temporal.Types.{QueryOperation, QueryValue, number, numerics, QueryResult}
use go_temporal_timeline.Temporal.Chunks.Assemble.{process_events}

pub record BadgeResult : Type 0 where
  pub user_id : String
  pub badge_type : String
  pub earned : Bool
  pub progress : Float64
  pub earned_at : Option Time
  pub event_count : Option ℕ
  pub operation_count : Option ℕ

pub record Evaluation : Type 0 where
  pub earned : Bool
  pub progress : Float64

max_loop : Duration → NumericTimeline → Duration
max_loop best [] = best
max_loop best (i ∷ is) =
    max_loop (if ltb_ℤ best (sub i.end i.start) then sub i.end i.start else best) is

module _ ⦃f : FloatOps⦄ where
  abbrev pub seconds_evaluation : ℕ → Float64 → Evaluation
  seconds_evaluation required x =
      let progress = f.div x (f.literal required 1) in
      record {
        earned = f.le (f.literal required 1) x;
        progress = if float_gt progress (f.literal 1 1) then f.literal 1 1 else progress;
      }

  -- The body of the five functions, for the required number of seconds.
  unfoldable pub evaluate_duration : ℕ → QueryValue → Evaluation
  unfolding max_loop sub
  evaluate_duration required (number x) = seconds_evaluation required x
  evaluate_duration required (numerics t) =
      seconds_evaluation required (f.seconds (max_loop (pos 0) t))
  evaluate_duration required _ = record { earned = false; progress = zero_float }

  abbrev pub evaluate_streak_maintainer : QueryValue → Evaluation
  evaluate_streak_maintainer v = evaluate_duration 1209600 v

  abbrev pub evaluate_daily_engagement : QueryValue → Evaluation
  evaluate_daily_engagement v = evaluate_duration 604800 v

  abbrev pub evaluate_topic_dominator : QueryValue → Evaluation
  evaluate_topic_dominator v = evaluate_duration 259200 v

  abbrev pub evaluate_feature_pioneer : QueryValue → Evaluation
  evaluate_feature_pioneer v = evaluate_duration 259200 v

  abbrev pub evaluate_weekend_warrior : QueryValue → Evaluation
  evaluate_weekend_warrior v = evaluate_duration 2419200 v

  -- The `switch` on the type of the badge.
  abbrev evaluation : String → QueryValue → Outcome Evaluation
  evaluation badge_type v =
      if str_eq badge_type "streak_maintainer"
      then ok (evaluate_streak_maintainer v)
      else if str_eq badge_type "daily_engagement"
      then ok (evaluate_daily_engagement v)
      else if str_eq badge_type "topic_dominator"
      then ok (evaluate_topic_dominator v)
      else if str_eq badge_type "feature_pioneer"
      then ok (evaluate_feature_pioneer v)
      else if str_eq badge_type "weekend_warrior"
      then ok (evaluate_weekend_warrior v)
      else fail (
          wrapped "unknown badge type" ("UnknownBadgeType" ∷ [])
            (errorf "badge type %s is not supported" (badge_type ∷ [])))

  module _ {A : Type 0} (classify : A → Error ⊎ Event) (now : Time) ⦃p : Parser⦄ ⦃s : Sorter⦄ where
    unfoldable pub evaluate_badge :
        List A → List QueryOperation → String → String → Outcome BadgeResult
    unfolding evaluate_duration process_events
    evaluate_badge events operations badge_type user_id = do
      query ←
          wrap_error "failed to process badge events: %w" []
            (process_events classify events operations)
      e ← evaluation badge_type query.result
      ok (record {
        user_id = user_id;
        badge_type = badge_type;
        earned = e.earned;
        progress = e.progress;
        earned_at = if e.earned then some now else none;
        event_count = query.event_count;
        operation_count = query.operation_count;
      })
