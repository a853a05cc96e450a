-- ===== src/Examples/Workflows.antt =====
-- The query and replay workflows over the store in memory.
use go_temporal_timeline.Prelude.{
  ◌≡◌, refl, arith, true, false, none, ◌<◌, ◌⊎◌, ◌↔◌, eq_iff, List, [], ◌∷◌, ◌++◌,
}
use go_temporal_timeline.GoValue.{Fields, no_fields}
use go_temporal_timeline.GoResult.{Error, ok}
use go_temporal_timeline.GoSort.Insertion.{insertion_sorter}
use go_temporal_timeline.Timeline.Types.{Event}
use go_temporal_timeline.Temporal.Types.{QueryOperation, plain}
use go_temporal_timeline.Temporal.Query.Process.{process_query}
use go_temporal_timeline.Temporal.Chunks.Assemble.{classify_loop}
use go_temporal_timeline.Temporal.Query.Convert.{read_event}
use go_temporal_timeline.Temporal.Storage.Mock.{Stored, read_events, load_events}
use go_temporal_timeline.Temporal.Ingestion.{ingest}
use go_temporal_timeline.Temporal.Ingestion.Laws.{accepted}
use go_temporal_timeline.Temporal.Micro.Orchestrator.{Surroundings, timed_out}
use go_temporal_timeline.Temporal.Workflows.{
  QueryRequest, ReplayRequest, run_mode, concurrent, single, process_loaded, query_workflow,
  replay_workflow,
}
use go_temporal_timeline.Temporal.Workflows.Laws.{
  own_mode, unfiltered, replay_workflow-query, query_workflow-ingest,
}
use go_temporal_timeline.Temporal.Workflows.Waits.{IsConcurrent, query_workflow-waits}
use go_temporal_timeline.Temporal.Workflows.Modes.{Agree, run_mode-Agree}
use go_temporal_timeline.Examples.Samples.{toy_floats}
use go_temporal_timeline.Examples.Badges.{day_parser, as_event, paid}
use go_temporal_timeline.Examples.Service.{toy_service, server_service}
use go_temporal_timeline.Examples.Naming.{unary_naming}
use go_temporal_timeline.Examples.Classifier.{hour_parser, object_reader, played_at}
use go_temporal_timeline.Examples.Ingestion.{store, index, store-IsLawful, nearly_full, two_signals}
use go_temporal_timeline.Examples.Micro.{surroundings}

abbrev playing : QueryOperation
playing = plain (record {
  id = "playing";
  op = "LatestEventToState";
  source = "playerStateChange";
  equals = "play";
  window = "";
  condition_all = [];
  condition_any = [];
  params = no_fields;
})

abbrev read_object : Fields → Error ⊎ Event
read_object = read_event 7 ⦃t = hour_parser⦄ ⦃f = toy_floats⦄ ⦃r = object_reader⦄

-- No micro-workflow answers.
abbrev silence : Surroundings Fields
silence = record {
  unnamed = λ op. op;
  child = λ q. timed_out;
  order = λ ls. ls;
  range = λ ns. ns;
  now = 3;
}

abbrev stored : List (Stored Fields)
stored = record { id = "ann"; events = played_at "01:00" ∷ [] } ∷ []

abbrev query : QueryRequest
query = record {
  timeline_id = "ann";
  operations = playing ∷ [];
  filters = no_fields;
  time_range = none;
  processing_mode = "single";
}

run_mode-Agree_example :
    Agree ⦃t = toy_service⦄
      (process_query ⦃p = day_parser⦄ ⦃f = toy_floats⦄
        (classify_loop as_event [] (paid ∷ []))
        (playing ∷ []))
      (run_mode as_event ⦃p = day_parser⦄ ⦃f = toy_floats⦄ ⦃m = unary_naming⦄ ⦃v = toy_service⦄
        surroundings concurrent 2
        (paid ∷ [])
        (playing ∷ []))
      (run_mode as_event ⦃p = day_parser⦄ ⦃f = toy_floats⦄ ⦃m = unary_naming⦄ ⦃v = toy_service⦄
        surroundings single 2
        (paid ∷ [])
        (playing ∷ []))
run_mode-Agree_example =
    run_mode-Agree as_event ⦃p = day_parser⦄ ⦃f = toy_floats⦄ ⦃m = unary_naming⦄ ⦃t = toy_service⦄
      surroundings (paid ∷ []) playing [] refl (omega arith) (omega arith) refl

abbrev large_query : QueryRequest
large_query = record query { processing_mode = "concurrent" }

query_workflow-waits_example :
    (query_workflow read_object ⦃p = day_parser⦄ ⦃f = toy_floats⦄ ⦃m = unary_naming⦄
        ⦃v = server_service⦄ silence store stored large_query
      ≡ none)
    ↔ (IsConcurrent "concurrent" 1 × (0 < 1) × (server_service.polls "timeline-processing" ≡ false))
unfolding load_events
query_workflow-waits_example =
    query_workflow-waits read_object ⦃p = day_parser⦄ ⦃f = toy_floats⦄ ⦃m = unary_naming⦄
      ⦃v = server_service⦄ silence store index stored large_query (played_at "01:00" ∷ []) refl

-- A replay of the query that asks for a mode.
abbrev replay : ReplayRequest
replay = record {
  timeline_id = "ann";
  query = query;
  chunk_size = 0;
  processing_mode = "concurrent";
}

concurrent_is_named : replay.processing_mode ≡ "" → ⊥
concurrent_is_named e = absurd (not_true ((eq_iff "concurrent" "").1 e))
  where
    not_true : false ≡ true → ⊥
    not_true h = cc

replay_workflow-query_example :
    replay_workflow read_object ⦃p = day_parser⦄ ⦃f = toy_floats⦄ ⦃m = unary_naming⦄
      ⦃v = toy_service⦄ silence store index stored [] replay
    ≡ query_workflow read_object ⦃p = day_parser⦄ ⦃f = toy_floats⦄ ⦃m = unary_naming⦄
        ⦃v = toy_service⦄ silence store stored
        (record query { timeline_id = "ann"; processing_mode = "concurrent" })
unfolding read_events load_events
replay_workflow-query_example =
    replay_workflow-query read_object ⦃p = day_parser⦄ ⦃f = toy_floats⦄ ⦃m = unary_naming⦄
      ⦃v = toy_service⦄ silence store index stored stored [] replay "concurrent" []
      (played_at "01:00" ∷ []) (own_mode concurrent_is_named) (unfiltered refl) refl refl

query_workflow-ingest_example :
    query_workflow read_object ⦃p = day_parser⦄ ⦃f = toy_floats⦄ ⦃m = unary_naming⦄
      ⦃v = toy_service⦄ silence store
      (ingest store index nearly_full two_signals).stored
      query
    ≡ process_loaded read_object ⦃p = day_parser⦄ ⦃f = toy_floats⦄ ⦃m = unary_naming⦄
        ⦃v = toy_service⦄ silence "single"
        (playing ∷ [])
        (ok (
          store-IsLawful.view nearly_full.stored "ann"
          ++ accepted store index nearly_full two_signals))
query_workflow-ingest_example =
    query_workflow-ingest read_object ⦃p = day_parser⦄ ⦃f = toy_floats⦄ ⦃m = unary_naming⦄
      ⦃v = toy_service⦄ silence store index store-IsLawful nearly_full two_signals query refl refl
