-- ===== src/Temporal/Micro/Alone.antt =====
-- What an operator computes when it sees no results of other operations.
use go_temporal_timeline.Prelude.{
  ◌≡◌, refl, ap, ◌∙◌, true, some, none, length, String, List, [], ◌∷◌, ◌⊎◌, str_eq, if_intro,
  if◌then◌else◌,
}
use go_temporal_timeline.Prelude.Int.{pos}
use go_temporal_timeline.GoTime.{Time}
use go_temporal_timeline.GoSort.{Sorter}
use go_temporal_timeline.GoFloat.{FloatOps}
use go_temporal_timeline.GoResult.{Error, Outcome, ok, fail, panic, ◌>>=◌, wrap_error}
use go_temporal_timeline.GoParse.{Parser}
use go_temporal_timeline.Timeline.Types.{Event, EventTimeline}
use go_temporal_timeline.Timeline.Combine.{timeline_and, timeline_or}
use go_temporal_timeline.Timeline.Durations.{duration_where}
use go_temporal_timeline.Temporal.Types.{
  OperationHead, QueryOperation, plain, nested, head_of, QueryValue, number, find,
}
use go_temporal_timeline.Temporal.Query.Params.{condition_timelines}
use go_temporal_timeline.Temporal.Query.Operators.{combined_timeline, flat_case, execute_operation}
use go_temporal_timeline.Temporal.Micro.{
  OperatorRequest, OperatorRun, Clock, operator_result, operator_workflow,
  execute_operator_activity,
}
use go_temporal_timeline.Temporal.Service.{TemporalService, receive}
use go_temporal_timeline.Temporal.Chunks.Assemble.{classify_loop}

no_timelines : (ids : List String) → condition_timelines [] [] ids ≡ []
unfolding condition_timelines find
no_timelines [] = refl
no_timelines (id ∷ ids) = no_timelines ids

neither :
    {A : Type 0} {z : A} (x y : A) (op : String)
    → op ≡ "DurationWhere"
    → (if str_eq op "DurationInCurState" then x else if str_eq op "Not" then y else z) ≡ z
neither x y op e = rw e refl

module _ ⦃p : Parser⦄ ⦃f : FloatOps⦄ ⦃s : Sorter⦄ where
  duration_alone : (ids any : List String) → duration_where (combined_timeline [] ids any) ≡ pos 0
  unfolding combined_timeline duration_where timeline_and timeline_or
  duration_alone (id ∷ ids) any = rw (no_timelines (id ∷ ids)) refl
  duration_alone [] (id ∷ ids) = rw (no_timelines (id ∷ ids)) refl
  duration_alone [] [] = refl

  flat_alone :
      (events : EventTimeline) (h : OperationHead)
      → h.op ≡ "DurationWhere"
      → flat_case events h [] ≡ ok (number (f.seconds (pos 0)))
  unfolding flat_case
  flat_alone events h e =
      rw e (ap (λ d. ok (number (f.seconds d))) (duration_alone h.condition_all h.condition_any))

  alone :
      (events : EventTimeline) (o : QueryOperation)
      → (head_of o).op ≡ "DurationWhere"
      → execute_operation events o [] ≡ ok (number (f.seconds (pos 0)))
  unfolding execute_operation
  alone events (plain h) e = neither _ _ h.op e ∙ flat_alone events h e
  alone events (nested h o) e = neither _ _ h.op e ∙ flat_alone events h e

  module _ {A : Type 0} (classify : A → Error ⊎ Event) where
    execute_operator_activity-duration_where :
        (events : List A) (o : QueryOperation)
        → (head_of o).op ≡ "DurationWhere"
        → execute_operator_activity classify events o ≡ ok (number (f.seconds (pos 0)))
    unfolding execute_operator_activity
    execute_operator_activity-duration_where events o e =
        ap (wrap_error "failed to execute operator %s: %w" ((head_of o).op ∷ []))
          (alone (classify_loop classify [] events) o e)

operator_result-id :
    {A : Type 0} (q : OperatorRequest A) (o : Outcome QueryValue) (t : Time)
    → (operator_result q o t).operator_id ≡ q.operator_id
operator_result-id q (ok v) t = refl
operator_result-id q (fail e) t = refl
operator_result-id q panic t = refl

module _ {A : Type 0} (classify : A → Error ⊎ Event) ⦃p : Parser⦄ ⦃f : FloatOps⦄ ⦃s : Sorter⦄
    ⦃t : TemporalService⦄ where
  -- An operator workflow returns the id of its request.
  pub operator_workflow-id :
      (q : OperatorRequest A) (clock : Clock)
      → (operator_workflow classify q clock).result.operator_id ≡ q.operator_id
  operator_workflow-id q clock =
      let id_of : (run : OperatorRun) → Type 0 = λ run. run.result.operator_id ≡ q.operator_id in
      let same =
        operator_result-id q (execute_operator_activity classify q.events q.operation >>= receive)
          clock.completed in
      if_intro id_of (str_eq (head_of q.operation).op "LatestEventToState") (λ t. same)
        (λ t.
          if_intro id_of (str_eq (head_of q.operation).op "HasExisted") (λ t. same)
            (λ t.
              if_intro id_of (str_eq (head_of q.operation).op "DurationWhere") (λ t. same)
                (λ t. same)))

  -- A micro-workflow of DurationWhere completes without an error, with 0 seconds as its result, the
  -- unit "seconds" and the number of its events, and sends no signals, whatever its events and its
  -- conditions are, if the float for 0 seconds is finite: it sees none of the results that its
  -- conditions name.
  pub operator_workflow-duration_where :
      (q : OperatorRequest A) (clock : Clock)
      → (head_of q.operation).op ≡ "DurationWhere"
      → t.is_finite (f.seconds (pos 0)) ≡ true
      → operator_workflow classify q clock ≡ record {
        result = record {
          operator_id = q.operator_id;
          partition_id = q.partition_id;
          result = number (f.seconds (pos 0));
          unit = "seconds";
          event_count = some (length q.events);
          error = none;
          completed_at = clock.completed;
        };
        signals = [];
      }
  operator_workflow-duration_where q clock e finite = rw e (
      rw (execute_operator_activity-duration_where classify q.events q.operation e)
        (rw (t.number_of (f.seconds (pos 0)) finite) refl))
