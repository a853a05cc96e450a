-- ===== src/Timeline/Classifier.antt =====
-- pkg/timeline/classifier.go: the events of the service, and how raw JSON becomes one of them. A
-- copy of a map is the map.
pub mod Reading
pub mod Correct
use go_temporal_timeline.Prelude.{
  true, false, String, Option, none, some, inl, inr, List, [], ◌∷◌, str_eq, if◌then◌else◌,
}
use go_temporal_timeline.GoTime.{Time, unix}
use go_temporal_timeline.GoFloat.{Float64, FloatOps}
use go_temporal_timeline.GoValue.{Value, float, int64, text, Fields, lookup, as_string}
use go_temporal_timeline.GoResult.{Error, wrapped, Outcome, ok, fail}
use go_temporal_timeline.GoParse.{TimeParser, EventReader}
use go_temporal_timeline.Timeline.Classified.{
  PlayEvent, SeekEvent, RebufferEvent, GenericEvent, TimelineEvent, basic, play, seek, rebuffer,
  generic,
}
use go_temporal_timeline.Timeline.Aggregations.Convert.{float_field}

-- The first of the fields that is there as a string.
unfoldable pub first_string : List String → Fields → Option String
unfolding lookup
first_string [] raw_data = none
first_string (name ∷ names) raw_data =
    let rest = first_string names raw_data in
    elim (lookup name raw_data) [
      | none ↦ rest
      | some v ↦ elim (as_string v) [ none ↦ rest | some s ↦ some s ]
    ]

abbrev pub type_fields : List String
type_fields = "eventType" ∷ "event_type" ∷ "type" ∷ "action" ∷ "event" ∷ "messageType" ∷ []

unfoldable pub extract_event_type : Fields → String
unfolding first_string
extract_event_type raw_data = elim (first_string type_fields raw_data) [ none ↦ "" | some s ↦ s ]

abbrev pub timestamp_fields : List String
timestamp_fields = "timestamp" ∷ "ts" ∷ "time" ∷ "eventTime" ∷ "event_time" ∷ []

-- A field as a string, or the empty string.
unfoldable pub string_field : String → Fields → String
unfolding lookup
string_field name raw_data = elim (lookup name raw_data) [
  | none ↦ ""
  | some v ↦ elim (as_string v) [ none ↦ "" | some s ↦ s ]
]

-- The second field counts only where the first one is missing.
unfoldable pub either_field : String → String → Fields → String
unfolding lookup string_field
either_field name other raw_data = elim (lookup name raw_data) [
  | none ↦ string_field other raw_data
  | some v ↦ elim (as_string v) [ none ↦ "" | some s ↦ s ]
]

-- The type of an event that no parser is registered for.
abbrev pub generic_type : String → String
generic_type type = if str_eq type "" then "unknown" else type

module _ ⦃p : TimeParser⦄ ⦃f : FloatOps⦄ where
  -- The `switch` on a value: its instant, if it has one.
  unfoldable pub value_timestamp : Value → Option Time
  value_timestamp (text s) = elim (p.parse_rfc3339 s) [
    | some t ↦ some t
    | none ↦ p.parse_rfc3339_nano s
  ]
  value_timestamp (float x) = some (unix (f.to_int x))
  value_timestamp (int64 v) = some (unix v)
  value_timestamp _ = none

  -- The loop over the names of the fields.
  unfoldable pub first_timestamp : List String → Fields → Option Time
  unfolding lookup value_timestamp
  first_timestamp [] raw_data = none
  first_timestamp (name ∷ names) raw_data =
      let rest = first_timestamp names raw_data in
      elim (lookup name raw_data) [
        | none ↦ rest
        | some v ↦ elim (value_timestamp v) [ none ↦ rest | some t ↦ some t ]
      ]

  module _ (now : Time) where
    unfoldable pub parse_timestamp : Fields → Time
    unfolding first_timestamp
    parse_timestamp raw_data = elim (first_timestamp timestamp_fields raw_data) [
      | none ↦ now
      | some t ↦ t
    ]

    abbrev pub parse_play_event : Fields → Outcome TimelineEvent
    parse_play_event raw_data = ok (
        play (record {
          timestamp = parse_timestamp raw_data;
          video_id = string_field "video_id" raw_data;
          cdn = string_field "cdn" raw_data;
          device_type = string_field "device_type" raw_data;
          attributes = raw_data;
        }))

    abbrev pub parse_seek_event : Fields → Outcome TimelineEvent
    parse_seek_event raw_data = ok (
        seek (record {
          timestamp = parse_timestamp raw_data;
          seek_from_time = float_field "seek_from_time" raw_data;
          seek_to_time = float_field "seek_to_time" raw_data;
          video_id = string_field "video_id" raw_data;
          attributes = raw_data;
        }))

    abbrev pub parse_rebuffer_event : Fields → Outcome TimelineEvent
    parse_rebuffer_event raw_data = ok (
        rebuffer (record {
          timestamp = parse_timestamp raw_data;
          buffer_duration = float_field "buffer_duration" raw_data;
          cdn = string_field "cdn" raw_data;
          device_type = string_field "device_type" raw_data;
          video_id = string_field "video_id" raw_data;
          attributes = raw_data;
        }))

    abbrev pub basic_event : String → String → Fields → Outcome TimelineEvent
    basic_event type value raw_data = ok (
        basic (record {
          timestamp = parse_timestamp raw_data;
          type = type;
          value = value;
          attrs = raw_data;
        }))

    abbrev pub parse_player_state_event : Fields → Outcome TimelineEvent
    parse_player_state_event raw_data =
        basic_event "playerStateChange" (either_field "state" "newState" raw_data) raw_data

    abbrev pub parse_cdn_change_event : Fields → Outcome TimelineEvent
    parse_cdn_change_event raw_data =
        basic_event "cdnChange" (either_field "cdn" "newCDN" raw_data) raw_data

    abbrev pub parse_user_action_event : Fields → Outcome TimelineEvent
    parse_user_action_event raw_data =
        basic_event "userAction" (either_field "action" "userAction" raw_data) raw_data

    abbrev pub parse_generic_event : Fields → Outcome TimelineEvent
    parse_generic_event raw_data = ok (
        generic (record {
          timestamp = parse_timestamp raw_data;
          event_type = generic_type (extract_event_type raw_data);
          attributes = raw_data;
        }))

-- An entry of the registry.
pub record Registered : Type 0 where
  pub event_type : String
  pub parser : Fields → Outcome TimelineEvent

-- `ec.registry[eventType]`: the newest registration stands first.
unfoldable pub find_parser : String → List Registered → Option (Fields → Outcome TimelineEvent)
find_parser type [] = none
find_parser type (e ∷ es) = if str_eq e.event_type type then some e.parser else find_parser type es

abbrev pub register_event_type :
    List Registered → String → (Fields → Outcome TimelineEvent) → List Registered
register_event_type registry type parser = record { event_type = type; parser = parser } ∷ registry

module _ (now : Time) ⦃p : TimeParser⦄ ⦃f : FloatOps⦄ where
  abbrev pub new_event_classifier : List Registered
  new_event_classifier =
      register_event_type
        (register_event_type
          (register_event_type
            (register_event_type
              (register_event_type (register_event_type [] "play" (parse_play_event now)) "seek"
                (parse_seek_event now))
              "rebuffer" (parse_rebuffer_event now))
            "playerStateChange" (parse_player_state_event now))
          "cdnChange" (parse_cdn_change_event now))
        "userAction" (parse_user_action_event now)

  -- `ClassifyEvent` on decoded JSON.
  unfoldable pub classify_fields : List Registered → Fields → Outcome TimelineEvent
  unfolding find_parser
  classify_fields registry raw_data =
      let type = extract_event_type raw_data in
      if str_eq type ""
      then parse_generic_event now raw_data
      else elim (find_parser type registry) [
        | none ↦ parse_generic_event now raw_data
        | some parser ↦ parser raw_data
      ]

  unfoldable pub classify_event :
      {A : Type 0} ⦃r : EventReader A⦄ → List Registered → A → Outcome TimelineEvent
  unfolding classify_fields
  classify_event ⦃r⦄ registry raw = elim (r.parse_json raw) [
    | inl e ↦ fail (wrapped "failed to parse JSON: %w" [] e)
    | inr raw_data ↦ classify_fields registry raw_data
  ]
