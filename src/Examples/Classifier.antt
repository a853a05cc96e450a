-- ===== src/Examples/Classifier.antt =====
-- The classifier and the store of events in memory.
use go_temporal_timeline.Prelude.{
  ◌≡◌, refl, String, Option, none, some, inr, List, [], ◌∷◌, ◌++◌, str_eq, if◌then◌else◌,
}
use go_temporal_timeline.GoTime.{Time}
use go_temporal_timeline.GoValue.{text, Fields, no_fields, field}
use go_temporal_timeline.GoParse.{TimeParser, EventReader}
use go_temporal_timeline.Timeline.Classifier.{
  either_field, extract_event_type, parse_timestamp, new_event_classifier, classify_event,
}
use go_temporal_timeline.Timeline.Classifier.Correct.{Parses, classify_event-Parses}
use go_temporal_timeline.Temporal.Types.{TimeRange}
use go_temporal_timeline.Temporal.Query.Convert.{read_event}
use go_temporal_timeline.Temporal.Storage.{IsLawful}
use go_temporal_timeline.Temporal.Storage.Mock.{
  Stored, append_events, load_events, mock_storage_service,
}
use go_temporal_timeline.Temporal.Storage.Mock.Refines.{
  IsSelection, mock_storage_service-IsLawful, load-append_events,
}
use go_temporal_timeline.Examples.Samples.{toy_floats}

-- A parser of times that knows three of them.
abbrev parse_hour : String → Option Time
parse_hour s = if str_eq s "01:00" then some 100 else if str_eq s "02:00" then some 200 else none

abbrev pub hour_parser : TimeParser
hour_parser = record { parse_rfc3339 = parse_hour; parse_rfc3339_nano = parse_hour }

-- Raw events that are objects already.
abbrev pub object_reader : EventReader Fields
object_reader = record { parse_json = inr }

abbrev pub played_at : String → Fields
played_at s =
    field "eventType" (text "playerStateChange")
      (field "timestamp" (text s) (field "state" (text "play") no_fields))

read-played :
    read_event 7 ⦃t = hour_parser⦄ ⦃f = toy_floats⦄ ⦃r = object_reader⦄ (played_at "01:00")
    ≡ inr (record {
      timestamp = 100;
      type = "playerStateChange";
      value = "play";
      attrs = played_at "01:00";
    })
unfolding read_event extract_event_type parse_timestamp either_field
read-played = refl

classify_event-Parses_example : Parses 7 ⦃p = hour_parser⦄ ⦃f = toy_floats⦄ (played_at "01:00") (
    classify_event 7 ⦃p = hour_parser⦄ ⦃f = toy_floats⦄ ⦃r = object_reader⦄
      (new_event_classifier 7 ⦃p = hour_parser⦄ ⦃f = toy_floats⦄)
      (played_at "01:00"))
classify_event-Parses_example =
    classify_event-Parses 7 ⦃p = hour_parser⦄ ⦃f = toy_floats⦄ ⦃r = object_reader⦄
      (played_at "01:00") (played_at "01:00") refl

mock_storage_service-IsLawful_example :
    IsLawful {A = Fields}
      (mock_storage_service ⦃t = hour_parser⦄ ⦃f = toy_floats⦄ ⦃r = object_reader⦄)
mock_storage_service-IsLawful_example =
    mock_storage_service-IsLawful {A = Fields} ⦃t = hour_parser⦄ ⦃f = toy_floats⦄
      ⦃r = object_reader⦄

abbrev one_stored : List (Stored Fields)
one_stored = record { id = "ann"; events = played_at "01:00" ∷ [] } ∷ []

abbrev second_hour : TimeRange
second_hour = record { start = 150; end = 200 }

load-append_events_example :
    (load_events ⦃t = hour_parser⦄ ⦃f = toy_floats⦄ ⦃r = object_reader⦄
        (append_events one_stored "ann" (played_at "02:00" ∷ []))
        "ann"
        none
      ≡ load_events ⦃t = hour_parser⦄ ⦃f = toy_floats⦄ ⦃r = object_reader⦄ one_stored "ann" none
        ++ played_at "02:00" ∷ [])
    × (kept_events : List Fields) × (load_events ⦃t = hour_parser⦄ ⦃f = toy_floats⦄
          ⦃r = object_reader⦄
          (append_events one_stored "ann" (played_at "02:00" ∷ []))
          "ann"
          (some second_hour)
        ≡ load_events ⦃t = hour_parser⦄ ⦃f = toy_floats⦄ ⦃r = object_reader⦄ one_stored "ann"
            (some second_hour)
          ++ kept_events)
    × IsSelection ⦃t = hour_parser⦄ ⦃f = toy_floats⦄ ⦃r = object_reader⦄ second_hour
        (played_at "02:00" ∷ [])
        kept_events
load-append_events_example =
    load-append_events ⦃t = hour_parser⦄ ⦃f = toy_floats⦄ ⦃r = object_reader⦄ one_stored "ann"
      second_hour (played_at "02:00" ∷ [])
