-- ===== src/Temporal/Workflows/Laws.antt =====
-- What a replay adds to a query, and what a query sees after an ingestion.
use go_temporal_timeline.Prelude.{
  ◌≡◌, refl, ap, sym, ◌∙◌, true, false, String, none, ◌⊎◌, List, [], ◌++◌, eq_iff, if_intro, str_eq,
}
use go_temporal_timeline.GoSort.{Sorter}
use go_temporal_timeline.GoFloat.{FloatOps}
use go_temporal_timeline.GoResult.{Error, ok, fail}
use go_temporal_timeline.GoParse.{Parser}
use go_temporal_timeline.Timeline.Types.{Event}
use go_temporal_timeline.Temporal.Storage.{
  StorageService, IndexService, IsLawful, load_events_activity, read_iceberg_activity,
  query_victoria_logs_activity,
}
use go_temporal_timeline.GoValue.{Value, Fields, no_fields, field}
use go_temporal_timeline.Temporal.Service.{TemporalService}
use go_temporal_timeline.Temporal.Micro.{Naming}
use go_temporal_timeline.Temporal.Micro.Orchestrator.{Surroundings}
use go_temporal_timeline.Temporal.Ingestion.{Delivery, World, ingest}
use go_temporal_timeline.Temporal.Ingestion.Laws.{accepted, extended, ingest_view}
use go_temporal_timeline.Temporal.Workflows.{
  QueryRequest, ReplayRequest, has_filters, replay_mode, process_loaded, query_workflow,
  loaded_events, event_pointers, read_by_pointers, replay_workflow,
}

-- What a replay asks the storage for: nothing but the range where the query has no filters or the
-- index fails, and else what the index finds.
pub data IsPointers {A : Type 0} (I : IndexService A) (index : I.Index) (query : QueryRequest)
    : List String → Type 0 where
  unfiltered : query.filters ≡ no_fields → IsPointers I index query []
  unavailable :
      (e : Error)
      → I.query_events index query.filters query.time_range ≡ fail e
      → IsPointers I index query []
  found :
      (key : String) (value : Value) (rest : Fields) (pointers : List String)
      → query.filters ≡ field key value rest
      → I.query_events index query.filters query.time_range ≡ ok pointers
      → IsPointers I index query pointers

-- The mode of a replay is its own, or the one of its query where it names none.
pub data IsModeOf (request : ReplayRequest) : String → Type 0 where
  own_mode : (request.processing_mode ≡ "" → ⊥) → IsModeOf request request.processing_mode
  mode_of_query : request.processing_mode ≡ "" → IsModeOf request request.query.processing_mode

true_not_false : true ≡ false → ⊥
true_not_false h = cc

replay_mode-IsModeOf :
    (request : ReplayRequest) (mode : String) → IsModeOf request mode → replay_mode request ≡ mode
replay_mode-IsModeOf request mode (own_mode h) =
    if_intro (λ x. x ≡ request.processing_mode) (str_eq request.processing_mode "")
      (λ e. absurd (h ((eq_iff request.processing_mode "").0 e))) (λ e. refl)
replay_mode-IsModeOf request mode (mode_of_query h) =
    if_intro (λ x. x ≡ request.query.processing_mode) (str_eq request.processing_mode "")
      (λ e. refl) (λ e. absurd (true_not_false (sym ((eq_iff request.processing_mode "").1 h) ∙ e)))

module _ {A : Type 0} (S : StorageService A) (I : IndexService A) where
  event_pointers-IsPointers :
      (index : I.Index) (query : QueryRequest) (pointers : List String)
      → IsPointers I index query pointers
      → event_pointers S I index query ≡ pointers
  unfolding event_pointers query_victoria_logs_activity
  event_pointers-IsPointers index query pointers (unfiltered h) = rw h refl
  event_pointers-IsPointers index query pointers (unavailable e h) =
      rw h (if_intro (λ xs. xs ≡ []) (has_filters query.filters) (λ t. refl) (λ t. refl))
  event_pointers-IsPointers index query pointers (found key value rest ps h k) =
      rw (ap has_filters h, k) refl

  read_by_pointers-ok :
      (stored : S.State) (index : I.Index) (request : ReplayRequest) (pointers : List String)
      (events : List A)
      → IsPointers I index request.query pointers
      → S.read_events stored request.timeline_id request.query.time_range pointers ≡ ok events
      → read_by_pointers S I stored index request ≡ ok events
  unfolding read_by_pointers read_iceberg_activity
  read_by_pointers-ok stored index request pointers events h k =
      rw (event_pointers-IsPointers index request.query pointers h, k) refl

  pub loaded_events-ok :
      (stored : S.State) (request : QueryRequest) (events : List A)
      → S.load_events stored request.timeline_id request.time_range ≡ ok events
      → loaded_events S stored request ≡ ok events
  unfolding loaded_events load_events_activity
  loaded_events-ok stored request events h = rw h refl

module _ {A : Type 0} (classify : A → Error ⊎ Event) ⦃p : Parser⦄ ⦃f : FloatOps⦄ ⦃s : Sorter⦄
    ⦃m : Naming⦄ ⦃v : TemporalService⦄ (w : Surroundings A) where
  module _ (S : StorageService A) (I : IndexService A) where
    -- A replay that reads some events by the pointers of the index, or without pointers where there
    -- are no filters or the index fails, returns what a query returns that loads the same events,
    -- in the mode of the replay, or in the mode of its own query where the replay names none.
    pub replay_workflow-query :
        (stored other : S.State) (index : I.Index) (request : ReplayRequest) (mode : String)
        (pointers : List String) (events : List A)
        → IsModeOf request mode
        → IsPointers I index request.query pointers
        → S.read_events stored request.timeline_id request.query.time_range pointers ≡ ok events
        → S.load_events other request.timeline_id request.query.time_range ≡ ok events
        → replay_workflow classify w S I stored index request
          ≡ query_workflow classify w S other
              (record request.query { timeline_id = request.timeline_id; processing_mode = mode })
    unfolding query_workflow replay_workflow
    replay_workflow-query stored other index request mode pointers events named pointed read load =
        let query : QueryRequest = record request.query {
          timeline_id = request.timeline_id;
          processing_mode = mode;
        } in
        ap
          (λ t.
            process_loaded classify w t request.query.operations
              (read_by_pointers S I stored index request))
          (replay_mode-IsModeOf request mode named)
        ∙ ap (process_loaded classify w mode request.query.operations) (
            read_by_pointers-ok S I stored index request pointers events pointed read
            ∙ sym (loaded_events-ok S I other query events load))

    -- A query without a range, after an ingestion into a lawful storage, processes exactly the
    -- events that the timeline held before and then those of the accepted signals, in their order.
    pub query_workflow-ingest :
        (lawful : IsLawful S) (before : World S I) (ds : List (Delivery A)) (request : QueryRequest)
        → request.timeline_id ≡ before.state.timeline_id
        → request.time_range ≡ none
        → query_workflow classify w S (ingest S I before ds).stored request
          ≡ process_loaded classify w request.processing_mode request.operations
              (ok (lawful.view before.stored request.timeline_id ++ accepted S I before ds))
    unfolding query_workflow
    query_workflow-ingest lawful before ds request same no_range =
        ap (process_loaded classify w request.processing_mode request.operations) (
          loaded_events-ok S I (ingest S I before ds).stored request
            (lawful.view before.stored request.timeline_id ++ accepted S I before ds)
            (ap (S.load_events (ingest S I before ds).stored request.timeline_id) no_range
              ∙ lawful.load-view (ingest S I before ds).stored request.timeline_id
              ∙ ap ok (
                  ingest_view S I lawful before ds request.timeline_id
                  ∙ ap
                      (λ mine.
                        extended S I mine (lawful.view before.stored request.timeline_id)
                          (accepted S I before ds))
                      ((eq_iff before.state.timeline_id request.timeline_id).1 (sym same)))))
