-- ===== src/Examples/Micro.antt =====
-- The operators as micro-workflows.
use go_temporal_timeline.Prelude.{some, none, ◌≡◌, refl, ap, sym, ◌∙◌, true, [], ◌∷◌, ◌↔◌}
use go_temporal_timeline.Prelude.Int.{pos}
use go_temporal_timeline.GoValue.{no_fields}
use go_temporal_timeline.GoResult.{panic}
use go_temporal_timeline.GoSort.Insertion.{insertion_sorter}
use go_temporal_timeline.Timeline.Types.{Event}
use go_temporal_timeline.Temporal.Types.{OperationHead, QueryOperation, plain, number}
use go_temporal_timeline.Temporal.Micro.{
  OperatorRequest, OperatorResult, Clock, operator_workflow, execute_operator_activity,
}
use go_temporal_timeline.Temporal.Micro.Alone.{
  operator_workflow-id, operator_workflow-duration_where,
}
use go_temporal_timeline.Temporal.Micro.Orchestrator.{
  OrchestratorRequest, ChildOutcome, completed, Surroundings, operator_request,
  operator_orchestrator_workflow,
}
use go_temporal_timeline.Temporal.Micro.Launch.{KeepIds}
use go_temporal_timeline.Temporal.Micro.Result.{
  KeepsEntries, Returns, operator_orchestrator_workflow-last,
}
use go_temporal_timeline.Temporal.Micro.Panics.{operator_orchestrator_workflow-panic}
use go_temporal_timeline.Examples.Samples.{toy_floats}
use go_temporal_timeline.Examples.Badges.{day_parser, as_event, paid}
use go_temporal_timeline.Examples.Service.{toy_service}
use go_temporal_timeline.Examples.Naming.{unary_naming}

abbrev pub existed_head : OperationHead
existed_head = record {
  id = "paid";
  op = "HasExisted";
  source = "payment_successful";
  equals = "true";
  window = "";
  condition_all = [];
  condition_any = [];
  params = no_fields;
}

abbrev pub existed : QueryOperation
existed = plain existed_head

abbrev total : QueryOperation
total =
    plain (record existed_head { id = "total"; op = "DurationWhere"; condition_all = "paid" ∷ [] })

abbrev day_clock : Clock
day_clock = record { started = 1; completed = 2 }

abbrev run_child : OperatorRequest Event → ChildOutcome
run_child q =
    completed
      (operator_workflow as_event ⦃p = day_parser⦄ ⦃f = toy_floats⦄ ⦃t = toy_service⦄ q
        day_clock).result

-- The children are the operator workflows, and a map is ranged over as it stands.
abbrev pub surroundings : Surroundings Event
surroundings = record {
  unnamed = λ op. op;
  child = run_child;
  order = λ ls. ls;
  range = λ ns. ns;
  now = 3;
}

completed_injective : {a b : OperatorResult} → completed a ≡ completed b → a ≡ b
completed_injective e = cc

pub surroundings-KeepIds : KeepIds ⦃m = unary_naming⦄ surroundings
surroundings-KeepIds q r e =
    ap (λ x. x.operator_id) (sym (completed_injective e))
    ∙ operator_workflow-id as_event ⦃p = day_parser⦄ ⦃f = toy_floats⦄ ⦃t = toy_service⦄ q day_clock

pub surroundings-KeepsEntries : KeepsEntries ⦃m = unary_naming⦄ surroundings
surroundings-KeepsEntries = (λ ls l. (λ h. h, λ h. h), λ ns n. (λ h. h, λ h. h))

abbrev request : OrchestratorRequest Event
request = record {
  operations = total ∷ existed ∷ [];
  events = paid ∷ [];
  partition_events = true;
  stream_results = true;
}

abbrev paid_result : OperatorResult
paid_result =
    (operator_workflow as_event ⦃p = day_parser⦄ ⦃f = toy_floats⦄ ⦃t = toy_service⦄
      (operator_request ⦃m = unary_naming⦄ "paid" existed 0 (paid ∷ []) 1) day_clock).result

operator_orchestrator_workflow-last_example :
    Returns ⦃m = unary_naming⦄ surroundings paid_result
      (operator_orchestrator_workflow ⦃m = unary_naming⦄ surroundings request)
unfolding execute_operator_activity
operator_orchestrator_workflow-last_example =
    operator_orchestrator_workflow-last ⦃m = unary_naming⦄ surroundings request total (existed ∷ [])
      (paid ∷ []) [] paid_result surroundings-KeepIds surroundings-KeepsEntries refl refl refl refl
      refl

operator_orchestrator_workflow-panic_example :
    (operator_orchestrator_workflow ⦃m = unary_naming⦄ surroundings request ≡ panic)
    ↔ (request.operations ≡ [])
operator_orchestrator_workflow-panic_example =
    operator_orchestrator_workflow-panic ⦃m = unary_naming⦄ surroundings request
      surroundings-KeepsEntries

abbrev total_request : OperatorRequest Event
total_request = operator_request ⦃m = unary_naming⦄ "total" total 0 (paid ∷ []) 1

operator_workflow-duration_where_example :
    operator_workflow as_event ⦃p = day_parser⦄ ⦃f = toy_floats⦄ ⦃t = toy_service⦄ total_request
      day_clock
    ≡ record {
      result = record {
        operator_id = total_request.operator_id;
        partition_id = 0;
        result = number (toy_floats.seconds (pos 0));
        unit = "seconds";
        event_count = some 1;
        error = none;
        completed_at = 2;
      };
      signals = [];
    }
operator_workflow-duration_where_example =
    operator_workflow-duration_where as_event ⦃p = day_parser⦄ ⦃f = toy_floats⦄ ⦃t = toy_service⦄
      total_request day_clock refl refl
