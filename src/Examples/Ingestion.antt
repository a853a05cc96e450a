-- ===== src/Examples/Ingestion.antt =====
-- Ingestion into the store in memory, and queries and replays over it.
use go_temporal_timeline.Prelude.{◌≡◌, ◌<◌, arith, List, [], ◌∷◌, str_eq}
use go_temporal_timeline.GoValue.{Fields}
use go_temporal_timeline.Temporal.Storage.{
  StorageService, IndexService, IsLawful, append_event_activity,
}
use go_temporal_timeline.Temporal.Storage.Mock.{mock_storage_service, mock_index_service}
use go_temporal_timeline.Temporal.Storage.Mock.Refines.{mock_storage_service-IsLawful}
use go_temporal_timeline.Temporal.Ingestion.{Delivery, World, ingest}
use go_temporal_timeline.Temporal.Ingestion.Laws.{
  accepted, extended, ingest_count, ingest_continues, ingest_view,
}
use go_temporal_timeline.Examples.Samples.{toy_floats}
use go_temporal_timeline.Examples.Classifier.{hour_parser, object_reader, played_at}

abbrev pub store : StorageService Fields
store = mock_storage_service ⦃t = hour_parser⦄ ⦃f = toy_floats⦄ ⦃r = object_reader⦄

abbrev pub index : IndexService Fields
index = mock_index_service ⦃t = hour_parser⦄ ⦃f = toy_floats⦄ ⦃r = object_reader⦄ (λ n. "event")

pub store-IsLawful : IsLawful store
store-IsLawful =
    mock_storage_service-IsLawful {A = Fields} ⦃t = hour_parser⦄ ⦃f = toy_floats⦄
      ⦃r = object_reader⦄

-- An execution that has counted 999 events.
abbrev pub nearly_full : World store index
nearly_full = record {
  stored = [];
  index = [];
  state = record { timeline_id = "ann"; event_count = 999; last_event_at = 5 };
  continued = 0;
}

abbrev pub two_signals : List (Delivery Fields)
two_signals =
    record { events = played_at "01:00" ∷ []; at = 110 }
    ∷ record { events = played_at "02:00" ∷ []; at = 210 }
    ∷ []

ingest_count_example : (ingest store index nearly_full two_signals).state.event_count < 1000
ingest_count_example = ingest_count store index nearly_full two_signals (omega arith)

ingest_continues_example :
    nearly_full.continued < (ingest store index nearly_full two_signals).continued
unfolding append_event_activity
ingest_continues_example =
    ingest_continues store index nearly_full two_signals (omega arith) (omega arith)

ingest_view_example :
    store-IsLawful.view (ingest store index nearly_full two_signals).stored "ann"
    ≡ extended store index
        (str_eq "ann" "ann")
        (store-IsLawful.view nearly_full.stored "ann")
        (accepted store index nearly_full two_signals)
ingest_view_example = ingest_view store index store-IsLawful nearly_full two_signals "ann"
