-- ===== src/Temporal/Badges/Workflows.antt =====
-- `validateBadgeRequest` and the five workflows of pkg/temporal/badging_workflows.go. Loading the
-- events is an activity, a parameter whose outcome is the one after all retries.
use go_temporal_timeline.Prelude.{
  String, Option, none, some, ◌⊎◌, List, [], ◌∷◌, str_eq, if◌then◌else◌,
}
use go_temporal_timeline.GoTime.{Time, zero_time, before, equal}
use go_temporal_timeline.GoSort.{Sorter}
use go_temporal_timeline.GoFloat.{FloatOps}
use go_temporal_timeline.GoValue.{Fields, text, field, no_fields}
use go_temporal_timeline.GoResult.{Error, errorf, Outcome, ok, fail, ◌>>=◌, wrap_error}
use go_temporal_timeline.GoParse.{Parser}
use go_temporal_timeline.Timeline.Types.{Event}
use go_temporal_timeline.Temporal.Types.{TimeRange, OperationHead, QueryOperation, plain, nested}
use go_temporal_timeline.Temporal.Badges.{BadgeResult, evaluate_badge}

pub record BadgeRequest : Type 0 where
  pub user_id : String
  pub badge_type : String
  pub time_range : Option TimeRange
  pub filters : Fields
  pub parameters : Fields

abbrev validate_range : Option TimeRange → Outcome {0} Unit
validate_range none = ok tt
validate_range (some r) =
    if equal r.start zero_time
    then fail (errorf "timeRange.Start cannot be zero" [])
    else if before r.end r.start
    then fail (errorf "timeRange.End cannot be before timeRange.Start" [])
    else ok tt

unfoldable pub validate_badge_request : BadgeRequest → Outcome {0} Unit
validate_badge_request r =
    if str_eq r.user_id ""
    then fail (errorf "userID cannot be empty" [])
    else if str_eq r.badge_type ""
    then fail (errorf "badgeType cannot be empty" [])
    else validate_range r.time_range

-- The fields that a literal leaves out are empty.
abbrev pub operation : String → String → OperationHead
operation id op = record {
  id = id;
  op = op;
  source = "";
  equals = "";
  window = "";
  condition_all = [];
  condition_any = [];
  params = no_fields;
}

abbrev pub existed_operation : String → String → OperationHead
existed_operation id source = record (operation id "HasExisted") {
  source = source;
  equals = "true";
}

abbrev pub within_operation : String → String → String → OperationHead
within_operation id source window = record (operation id "HasExistedWithin") {
  source = source;
  equals = "true";
  params = field "window" (text window) no_fields;
}

abbrev pub longest_operation : String → String → OperationHead
longest_operation id source = record (operation id "LongestConsecutiveTrueDuration") {
  params = field "sourceOperationId" (text source) no_fields;
}

abbrev pub streak_maintainer_operations : List QueryOperation
streak_maintainer_operations =
    plain (existed_operation "payment_successful_exists" "payment_successful")
    ∷ nested (operation "payment_due_not_exists" "Not") (plain (existed_operation "" "payment_due"))
    ∷ plain (record (operation "on_time_bool_timeline" "AND") {
      condition_all = "payment_successful_exists" ∷ "payment_due_not_exists" ∷ [];
    })
    ∷ plain (longest_operation "longest_streak" "on_time_bool_timeline")
    ∷ []

abbrev pub daily_engagement_operations : List QueryOperation
daily_engagement_operations =
    plain (within_operation "app_open_within_day" "app_open" "24h")
    ∷ plain (within_operation "user_interaction_within_day" "user_interaction" "24h")
    ∷ plain (within_operation "post_created_within_day" "post_created" "24h")
    ∷ plain (record (operation "daily_activity_bool_timeline" "OR") {
      condition_any =
          "app_open_within_day" ∷ "user_interaction_within_day" ∷ "post_created_within_day" ∷ [];
    })
    ∷ plain (longest_operation "longest_engagement_streak" "daily_activity_bool_timeline")
    ∷ []

abbrev pub topic_dominator_operations : List QueryOperation
topic_dominator_operations =
    plain (within_operation "comment_liked_daily" "comment_liked" "24h")
    ∷ plain (within_operation "comment_replied_daily" "comment_replied" "24h")
    ∷ plain (record (operation "high_engagement_daily" "OR") {
      condition_any = "comment_liked_daily" ∷ "comment_replied_daily" ∷ [];
    })
    ∷ plain (longest_operation "dominator_streak" "high_engagement_daily")
    ∷ []

abbrev pub feature_pioneer_operations : List QueryOperation
feature_pioneer_operations =
    plain (within_operation "early_feature_adoption" "new_feature_used" "24h")
    ∷ plain (within_operation "continued_feature_use" "new_feature_used" "24h")
    ∷ plain (record (operation "pioneer_behavior" "AND") {
      condition_all = "early_feature_adoption" ∷ "continued_feature_use" ∷ [];
    })
    ∷ plain (longest_operation "pioneer_streak" "pioneer_behavior")
    ∷ []

abbrev pub weekend_warrior_operations : List QueryOperation
weekend_warrior_operations =
    plain (existed_operation "weekend_interactions" "weekend_interaction")
    ∷ plain (existed_operation "weekday_interactions" "weekday_interaction")
    ∷ plain (within_operation "weekend_activity" "weekend_interaction" "4w")
    ∷ plain (longest_operation "warrior_pattern" "weekend_activity")
    ∷ []

module _ {A : Type 0} (classify : A → Error ⊎ Event)
    (load : String → Option TimeRange → Outcome (List A)) (now : Time) ⦃p : Parser⦄ ⦃f : FloatOps⦄
    ⦃s : Sorter⦄ where
  -- What the five workflows share: the operations and the type of the badge are those of the
  -- workflow, not of the request.
  unfoldable pub badge_workflow : List QueryOperation → String → BadgeRequest → Outcome BadgeResult
  unfolding validate_badge_request evaluate_badge
  badge_workflow operations badge_type request =
      wrap_error "invalid badge request" ("BadgeRequestValidation" ∷ [])
        (validate_badge_request request)
      >>= λ _.
          wrap_error "failed to load events: %w" [] (load request.user_id request.time_range)
          >>= λ events.
              wrap_error "failed to evaluate badge: %w" []
                (evaluate_badge classify now events operations badge_type request.user_id)

  abbrev pub streak_maintainer_workflow : BadgeRequest → Outcome BadgeResult
  streak_maintainer_workflow request =
      badge_workflow streak_maintainer_operations "streak_maintainer" request

  abbrev pub daily_engagement_workflow : BadgeRequest → Outcome BadgeResult
  daily_engagement_workflow request =
      badge_workflow daily_engagement_operations "daily_engagement" request

  abbrev pub topic_dominator_workflow : BadgeRequest → Outcome BadgeResult
  topic_dominator_workflow request =
      badge_workflow topic_dominator_operations "topic_dominator" request

  abbrev pub feature_pioneer_workflow : BadgeRequest → Outcome BadgeResult
  feature_pioneer_workflow request =
      badge_workflow feature_pioneer_operations "feature_pioneer" request

  abbrev pub weekend_warrior_workflow : BadgeRequest → Outcome BadgeResult
  weekend_warrior_workflow request =
      badge_workflow weekend_warrior_operations "weekend_warrior" request
