-- ===== src/Temporal/Workflows.antt =====
-- `QueryWorkflow` and `ReplayWorkflow` of pkg/temporal/workflows.go. An activity stands for the
-- outcome of its last attempt, and its result arrives as decoded JSON. The loop that cuts events into
-- chunks runs on fuel, and `none` means that it ran out, or that the workflow waits for ever.
pub mod Laws
pub mod Modes
pub mod Waits
use go_temporal_timeline.Prelude.{
  ℕ, suc, Bool, true, false, String, Option, none, some, ◌⊎◌, List, [], ◌∷◌, length, leb, str_eq,
  if◌then◌else◌,
}
use go_temporal_timeline.GoSort.{Sorter}
use go_temporal_timeline.GoFloat.{FloatOps}
use go_temporal_timeline.GoValue.{Fields, no_fields, field}
use go_temporal_timeline.GoResult.{
  Error, errorf, wrapped, Outcome, ok, fail, panic, ◌>>=◌, wrap_error, settled, map_outcome,
}
use go_temporal_timeline.GoParse.{Parser}
use go_temporal_timeline.Timeline.Types.{Event}
use go_temporal_timeline.Temporal.Types.{TimeRange, QueryOperation, QueryResult, QueryValue}
use go_temporal_timeline.Temporal.Storage.{
  StorageService, IndexService, load_events_activity, read_iceberg_activity,
  query_victoria_logs_activity,
}
use go_temporal_timeline.Temporal.Service.{TemporalService, receive}
use go_temporal_timeline.Temporal.Chunks.Assemble.{
  AssembledResult, process_events, process_events_concurrently,
}
use go_temporal_timeline.Temporal.Micro.{Naming}
use go_temporal_timeline.Temporal.Micro.Assemble.{MicroResult}
use go_temporal_timeline.Temporal.Micro.Orchestrator.{
  Surroundings, process_events_with_micro_workflows,
}

abbrev pub default_chunk_size : ℕ
default_chunk_size = 10000

pub record QueryRequest : Type 0 where
  pub timeline_id : String
  pub operations : List QueryOperation
  pub filters : Fields
  pub time_range : Option TimeRange
  pub processing_mode : String

pub record ReplayRequest : Type 0 where
  pub timeline_id : String
  pub query : QueryRequest
  pub chunk_size : ℕ
  pub processing_mode : String

-- The cases of the switch over the mode.
pub data Mode : Type 0 where
  micro_workflow : Mode
  concurrent : Mode
  single : Mode

-- The case for a text and a number of events.
abbrev pub choose_mode : String → ℕ → Mode
choose_mode text n =
    if str_eq text "micro-workflow"
    then micro_workflow
    else if str_eq text "concurrent"
    then concurrent
    else if str_eq text "single"
    then single
    else if leb default_chunk_size n
    then concurrent
    else single

-- A result is a `QueryResult`, whose metadata depend on the mode.
pub data WorkflowResult : Type 0 where
  from_query : QueryResult → WorkflowResult
  from_chunks : AssembledResult → WorkflowResult
  from_operators : MicroResult → WorkflowResult

abbrev pub value_of : WorkflowResult → QueryValue
value_of (from_query r) = r.result
value_of (from_chunks r) = r.result
value_of (from_operators r) = r.result

abbrev pub unit_of : WorkflowResult → String
unit_of (from_query r) = r.unit
unit_of (from_chunks r) = r.unit
unit_of (from_operators r) = r.unit

abbrev pub has_filters : Fields → Bool
has_filters no_fields = false
has_filters (field k v rest) = true

-- `processingMode` of a replay.
abbrev pub replay_mode : ReplayRequest → String
replay_mode request =
    if str_eq request.processing_mode ""
    then request.query.processing_mode
    else request.processing_mode

-- The queues of the chunk activities and of the micro-workflows.
abbrev pub processing_queue : String
processing_queue = "timeline-processing"

abbrev pub operators_queue : String
operators_queue = "timeline-operators"

-- What the workflow makes of the outcome of the concurrent mode.
abbrev pub returned_chunks : Option (Outcome AssembledResult) → Option (Outcome WorkflowResult)
returned_chunks none = none
returned_chunks (some o) =
    some (map_outcome from_chunks (wrap_error "failed to process events concurrently: %w" [] o))

-- The results of the activity and of the orchestrator, whose values are decoded.
abbrev pub receive_query : ⦃v : TemporalService⦄ → QueryResult → Outcome QueryResult
receive_query r = receive r.result >>= λ x. ok (record r { result = x })

abbrev pub receive_micro : ⦃v : TemporalService⦄ → MicroResult → Outcome MicroResult
receive_micro r = receive r.result >>= λ x. ok (record r { result = x })

module _ {A : Type 0} (S : StorageService A) where
  -- The first step of a query.
  unfoldable pub loaded_events : S.State → QueryRequest → Outcome (List A)
  unfolding load_events_activity
  loaded_events stored request =
      wrap_error "failed to load events: %w" []
        (settled (load_events_activity S stored request.timeline_id request.time_range))

  module _ (I : IndexService A) where
    -- `eventPointers`: where the index fails, the replay goes on without pointers.
    unfoldable pub event_pointers : I.Index → QueryRequest → List String
    unfolding query_victoria_logs_activity
    event_pointers index query =
        if has_filters query.filters
        then elim (query_victoria_logs_activity S I index query.filters query.time_range) [
          | ok pointers ↦ pointers
          | fail e ↦ []
          | panic ↦ []
        ]
        else []

    -- The first two steps of a replay.
    unfoldable pub read_by_pointers : S.State → I.Index → ReplayRequest → Outcome (List A)
    unfolding event_pointers read_iceberg_activity
    read_by_pointers stored index request = wrap_error "failed to read from Iceberg: %w" [] (
        settled (
          read_iceberg_activity S stored request.timeline_id request.query.time_range
            (event_pointers index request.query)))

module _ {A : Type 0} (classify : A → Error ⊎ Event) ⦃p : Parser⦄ ⦃f : FloatOps⦄ ⦃s : Sorter⦄
    ⦃m : Naming⦄ ⦃v : TemporalService⦄ (w : Surroundings A) where
  -- The concurrent mode. The activities of the chunks may wait for ever to be started, so where no
  -- worker polls their queue and there is a chunk the workflow does not return.
  abbrev pub run_chunks : ℕ → List A → List QueryOperation → Option (Outcome AssembledResult)
  run_chunks fuel [] operations = process_events_concurrently classify fuel [] operations
  run_chunks fuel (e ∷ es) operations =
      if v.polls processing_queue
      then process_events_concurrently classify fuel (e ∷ es) operations
      else none

  -- The micro-workflow mode. A child workflow that no worker runs ends by its timeout.
  abbrev pub run_orchestrator : List A → List QueryOperation → Outcome MicroResult
  run_orchestrator events operations =
      if v.polls operators_queue
      then process_events_with_micro_workflows w events operations >>= receive_micro
      else fail
          (wrapped "micro-workflow processing failed: %w" [] (errorf "child workflow timeout" []))

  -- The case of the switch that a mode selects.
  unfoldable pub run_mode :
      Mode → ℕ → List A → List QueryOperation → Option (Outcome WorkflowResult)
  unfolding process_events_with_micro_workflows process_events_concurrently process_events
  run_mode micro_workflow fuel events operations = some (
      map_outcome from_operators (
        wrap_error "failed to process events with micro-workflows: %w" []
          (run_orchestrator events operations)))
  run_mode concurrent fuel events operations = returned_chunks (run_chunks fuel events operations)
  run_mode single fuel events operations = some (
      map_outcome from_query (
        wrap_error "failed to process events: %w" []
          (settled (process_events classify events operations) >>= receive_query)))

  -- The second step of both workflows, for the outcome of the first.
  unfoldable pub process_loaded :
      String → List QueryOperation → Outcome (List A) → Option (Outcome WorkflowResult)
  unfolding run_mode
  process_loaded mode operations (ok events) =
      run_mode (choose_mode mode (length events)) (suc (length events)) events operations
  process_loaded mode operations (fail e) = some (fail e)
  process_loaded mode operations panic = some panic

  module _ (S : StorageService A) where
    unfoldable pub query_workflow : S.State → QueryRequest → Option (Outcome WorkflowResult)
    unfolding process_loaded loaded_events
    query_workflow stored request =
        process_loaded request.processing_mode request.operations (loaded_events S stored request)

    unfoldable pub replay_workflow :
        (I : IndexService A) → S.State → I.Index → ReplayRequest → Option (Outcome WorkflowResult)
    unfolding process_loaded read_by_pointers
    replay_workflow I stored index request =
        process_loaded (replay_mode request) request.query.operations
          (read_by_pointers S I stored index request)
