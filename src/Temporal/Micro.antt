-- ===== src/Temporal/Micro.antt =====
-- pkg/temporal/micro_workflows.go, but for `partitionEvents`: the requests, the results and the
-- workflows of the operators; the children have the assembly of results and the orchestrator.
-- `ExecuteOperatorActivity` of pkg/temporal/activities.go is what an operator runs.
pub mod Assemble
pub mod Orchestrator
pub mod Lookup
pub mod Launch
pub mod Result
pub mod Panics
pub mod Alone
use go_temporal_timeline.Prelude.{
  ℕ, ◌+◌, ◌≡◌, Bool, true, false, ◌&&◌, String, Option, none, some, ◌⊎◌, List, [], ◌∷◌, ◌++◌,
  length, ltb, str_eq, if◌then◌else◌, last_from,
}
use go_temporal_timeline.Prelude.Int.{pos}
use go_temporal_timeline.GoTime.{Time}
use go_temporal_timeline.GoSort.{Sorter}
use go_temporal_timeline.GoFloat.{FloatOps}
use go_temporal_timeline.GoResult.{Error, errorf, Outcome, ok, fail, panic, ◌>>=◌, wrap_error}
use go_temporal_timeline.GoParse.{Parser}
use go_temporal_timeline.Timeline.Types.{Event}
use go_temporal_timeline.Temporal.Types.{
  OperationHead, QueryOperation, head_of, QueryValue, nothing, whole,
}
use go_temporal_timeline.Temporal.Query.Operators.{execute_operation}
use go_temporal_timeline.Temporal.Query.Process.{determine_unit}
use go_temporal_timeline.Temporal.Service.{TemporalService, receive}
use go_temporal_timeline.Temporal.Chunks.Assemble.{classify_loop}

pub record OperatorRequest (A : Type 0) : Type 0 where
  pub operator_id : String
  pub operation : QueryOperation
  pub events : List A
  pub partition_id : ℕ
  pub total_partitions : ℕ

-- Of the metadata the number of events is kept, where there is one.
pub record OperatorResult : Type 0 where
  pub operator_id : String
  pub partition_id : ℕ
  pub result : QueryValue
  pub unit : String
  pub event_count : Option ℕ
  pub error : Option Error
  pub completed_at : Time

pub record StreamingResultEvent : Type 0 where
  pub event_type : String
  pub operator_id : String
  pub partition_id : ℕ
  pub result : QueryValue
  pub error : Option Error
  pub timestamp : Time

-- What an operator workflow returns, before it is sent, and the signals that it sends to its parent.
pub record OperatorRun : Type 0 where
  pub result : OperatorResult
  pub signals : List StreamingResultEvent

module _ {A : Type 0} (classify : A → Error ⊎ Event) ⦃p : Parser⦄ ⦃f : FloatOps⦄ ⦃s : Sorter⦄ where
  -- `ExecuteOperatorActivity`: the operator sees no results of other operations.
  unfoldable pub execute_operator_activity : List A → QueryOperation → Outcome QueryValue
  unfolding classify_loop execute_operation
  execute_operator_activity events operation =
      wrap_error "failed to execute operator %s: %w" ((head_of operation).op ∷ [])
        (execute_operation (classify_loop classify [] events) operation [])

-- The result of an operator workflow, for what it receives from its activity.
abbrev pub operator_result :
    {A : Type 0} → OperatorRequest A → Outcome QueryValue → Time → OperatorResult
operator_result request (ok v) completed = record {
  operator_id = request.operator_id;
  partition_id = request.partition_id;
  result = v;
  unit = determine_unit v;
  event_count = some (length request.events);
  error = none;
  completed_at = completed;
}
operator_result request (fail e) completed = record {
  operator_id = request.operator_id;
  partition_id = request.partition_id;
  result = nothing;
  unit = "";
  event_count = none;
  error = some e;
  completed_at = completed;
}
operator_result request panic completed = record {
  operator_id = request.operator_id;
  partition_id = request.partition_id;
  result = nothing;
  unit = "";
  event_count = none;
  error = some (errorf "panic" []);
  completed_at = completed;
}

-- The event of the second signal.
abbrev finished_event : OperatorResult → StreamingResultEvent
finished_event r = record {
  event_type = elim r.error [ none ↦ "operator_completed" | some e ↦ "operator_failed" ];
  operator_id = r.operator_id;
  partition_id = r.partition_id;
  result = r.result;
  error = r.error;
  timestamp = r.completed_at;
}

abbrev started_event : {A : Type 0} → OperatorRequest A → Time → StreamingResultEvent
started_event request started = record {
  event_type = "operator_started";
  operator_id = request.operator_id;
  partition_id = request.partition_id;
  result = nothing;
  error = none;
  timestamp = started;
}

-- The instants at which a workflow begins and ends.
pub record Clock : Type 0 where
  pub started : Time
  pub completed : Time

module _ {A : Type 0} (classify : A → Error ⊎ Event) ⦃p : Parser⦄ ⦃f : FloatOps⦄ ⦃s : Sorter⦄
    ⦃t : TemporalService⦄ where
  -- `HasExistedWorkflow` and `DurationWhereWorkflow`, which are one.
  abbrev pub plain_operator_workflow : OperatorRequest A → Clock → OperatorRun
  plain_operator_workflow request clock = record {
    result =
        operator_result request
          (execute_operator_activity classify request.events request.operation >>= receive)
          clock.completed;
    signals = [];
  }

  -- `LatestEventToStateWorkflow`, with a parent.
  abbrev pub latest_event_to_state_workflow : OperatorRequest A → Clock → OperatorRun
  latest_event_to_state_workflow request clock =
      let r =
        operator_result request
          (execute_operator_activity classify request.events request.operation >>= receive)
          clock.completed in
      record { result = r; signals = started_event request clock.started ∷ finished_event r ∷ [] }

  -- The workflow whose name the orchestrator chooses.
  abbrev pub operator_workflow : OperatorRequest A → Clock → OperatorRun
  operator_workflow request clock =
      if str_eq (head_of request.operation).op "LatestEventToState"
      then latest_event_to_state_workflow request clock
      else if str_eq (head_of request.operation).op "HasExisted"
      then plain_operator_workflow request clock
      else if str_eq (head_of request.operation).op "DurationWhere"
      then plain_operator_workflow request clock
      else latest_event_to_state_workflow request clock

-- An entry of the map of results.
pub record Named : Type 0 where
  pub key : String
  pub value : OperatorResult

unfoldable pub find_result : String → List Named → Option OperatorResult
find_result key [] = none
find_result key (n ∷ ns) = if str_eq n.key key then some n.value else find_result key ns

unfoldable pub put_result : String → OperatorResult → List Named → List Named
put_result key r [] = record { key = key; value = r } ∷ []
put_result key r (n ∷ ns) =
    let rest = put_result key r ns in
    if str_eq n.key key then record n { value = r } ∷ ns else n ∷ rest

-- `fmt.Sprintf("%s-p%d", id, i)`, and also `id + "-p0"`. Different ids, or different numbers, have
-- different names.
pub record Naming : Type 0 where
  pub partition_name : String → ℕ → String
  pub id_of_name : (a b : String) (i j : ℕ) → partition_name a i ≡ partition_name b j → a ≡ b
  pub number_of_name : (a b : String) (i j : ℕ) → partition_name a i ≡ partition_name b j → i ≡ j
