-- ===== src/Temporal/Micro/Orchestrator.antt =====
-- `OperatorOrchestratorWorkflow` of pkg/temporal/micro_workflows.go and
-- `ProcessEventsWithMicroWorkflows` of pkg/temporal/workflows.go. What a child workflow comes to,
-- after the server has run it and its result has been sent, is a parameter, and so is the order in
-- which a map is ranged over. The streaming of partial results is left out.
use go_temporal_timeline.Prelude.{
  ℕ, suc, ◌+◌, Bool, true, ◌&&◌, String, none, some, List, [], ◌∷◌, length, ltb, str_eq,
  if◌then◌else◌,
}
use go_temporal_timeline.GoTime.{Time}
use go_temporal_timeline.GoResult.{Error, errorf, Outcome, ok, panic, wrap_error, settled}
use go_temporal_timeline.Temporal.Types.{QueryOperation, head_of, nothing}
use go_temporal_timeline.Temporal.Chunks.{partition_events}
use go_temporal_timeline.Temporal.Micro.{OperatorRequest, OperatorResult, Naming, Named, put_result}
use go_temporal_timeline.Temporal.Micro.Assemble.{MicroResult, assemble_operator_results}

abbrev pub default_partition_size : ℕ
default_partition_size = 5000

pub record OrchestratorRequest (A : Type 0) : Type 0 where
  pub operations : List QueryOperation
  pub events : List A
  pub partition_events : Bool
  pub stream_results : Bool

-- What the selector sees of a child: it completes, it fails, or the timer fires first.
pub data ChildOutcome : Type 0 where
  completed : OperatorResult → ChildOutcome
  failed : Error → ChildOutcome
  timed_out : ChildOutcome

-- An entry of `operatorFutures`.
pub record Launched : Type 0 where
  pub key : String
  pub children : List ChildOutcome

-- `operatorFutures[id] = ...`: a former entry is replaced. The order of a map does not matter.
unfoldable pub remove_launched : String → List Launched → List Launched
remove_launched key [] = []
remove_launched key (l ∷ ls) =
    let rest = remove_launched key ls in if str_eq l.key key then rest else l ∷ rest

unfoldable pub put_launched : Launched → List Launched → List Launched
unfolding remove_launched
put_launched l ls = l ∷ remove_launched l.key ls

-- What the orchestrator gets from its surroundings: `fmt.Sprintf("%s-%d", op, now)` for an
-- operation without an id, the outcome of a child, the orders of the two maps, and the clock at its end.
pub record Surroundings (A : Type 0) : Type 0 where
  pub unnamed : String → String
  pub child : OperatorRequest A → ChildOutcome
  pub order : List Launched → List Launched
  pub range : List Named → List Named
  pub now : Time

module _ ⦃m : Naming⦄ where
  abbrev failed_result : String → ℕ → Error → Time → OperatorResult
  failed_result key i e now = record {
    operator_id = m.partition_name key i;
    partition_id = i;
    result = nothing;
    unit = "";
    event_count = none;
    error = some e;
    completed_at = now;
  }

  -- A selection: the result is stored.
  unfoldable pub select_child : Time → String → ℕ → ChildOutcome → List Named → List Named
  unfolding put_result
  select_child now key i (completed r) results = put_result r.operator_id r results
  select_child now key i (failed e) results =
      put_result (m.partition_name key i) (failed_result key i e now) results
  select_child now key i timed_out results =
      put_result (m.partition_name key i)
        (failed_result key i (errorf "operator timeout after %v" []) now) results

  unfoldable pub children_loop : Time → String → ℕ → List ChildOutcome → List Named → List Named
  unfolding select_child
  children_loop now key i [] results = results
  children_loop now key i (c ∷ cs) results =
      children_loop now key (i + 1) cs (select_child now key i c results)

  unfoldable pub futures_loop : Time → List Launched → List Named → List Named
  unfolding children_loop
  futures_loop now [] results = results
  futures_loop now (l ∷ ls) results =
      futures_loop now ls (children_loop now l.key 0 l.children results)

-- `finalResult.Metadata[...] = ...`, which panics where the map is nil.
abbrev pub write_metadata : MicroResult → Outcome MicroResult
write_metadata r = elim r.metadata [ none ↦ panic | some d ↦ ok r ]

module _ ⦃m : Naming⦄ {A : Type 0} where
  abbrev pub partitions_of : OrchestratorRequest A → List (List A)
  partitions_of request =
      if request.partition_events && ltb default_partition_size (length request.events)
      then elim (partition_events (suc (length request.events)) request.events
          default_partition_size) [ none ↦ [] | some ps ↦ ps ]
      else request.events ∷ []

  abbrev pub operator_id : Surroundings A → QueryOperation → String
  operator_id w operation =
      if str_eq (head_of operation).id ""
      then w.unnamed (head_of operation).op
      else (head_of operation).id

  abbrev pub operator_request : String → QueryOperation → ℕ → List A → ℕ → OperatorRequest A
  operator_request id operation i partition total = record {
    operator_id = m.partition_name id i;
    operation = operation;
    events = partition;
    partition_id = i;
    total_partitions = total;
  }

  -- The children of one operation, from the partition `i` on.
  unfoldable pub launch_partitions :
      Surroundings A → String → QueryOperation → ℕ → ℕ → List (List A) → List ChildOutcome
  launch_partitions w id operation total i [] = []
  launch_partitions w id operation total i (p ∷ ps) =
      w.child (operator_request id operation i p total)
      ∷ launch_partitions w id operation total (i + 1) ps

  abbrev pub launch : Surroundings A → List (List A) → QueryOperation → Launched
  launch w ps operation = record {
    key = operator_id w operation;
    children = launch_partitions w (operator_id w operation) operation (length ps) 0 ps;
  }

  unfoldable pub launch_loop :
      Surroundings A → List (List A) → List Launched → List QueryOperation → List Launched
  unfolding put_launched launch_partitions
  launch_loop w ps futures [] = futures
  launch_loop w ps futures (operation ∷ rest) =
      launch_loop w ps (put_launched (launch w ps operation) futures) rest

module _ ⦃m : Naming⦄ {A : Type 0} where
  unfoldable pub operator_results : Surroundings A → OrchestratorRequest A → List Named
  unfolding futures_loop launch_loop partition_events
  operator_results w request =
      futures_loop w.now (w.order (launch_loop w (partitions_of request) [] request.operations)) []

  unfoldable pub operator_orchestrator_workflow :
      Surroundings A → OrchestratorRequest A → Outcome MicroResult
  unfolding operator_results assemble_operator_results
  operator_orchestrator_workflow w request =
      let results = operator_results w request in
      write_metadata (assemble_operator_results (w.range results) results request.operations)

  -- `ProcessEventsWithMicroWorkflows`, where the child workflow is the orchestrator.
  unfoldable pub process_events_with_micro_workflows :
      Surroundings A → List A → List QueryOperation → Outcome MicroResult
  unfolding operator_orchestrator_workflow
  process_events_with_micro_workflows w events operations =
      wrap_error "micro-workflow processing failed: %w" [] (
        settled (
          operator_orchestrator_workflow w (record {
            operations = operations;
            events = events;
            partition_events = ltb default_partition_size (length events);
            stream_results = true;
          })))
