-- ===== src/Temporal/Query/Convert.antt =====
-- `extractValue` of pkg/temporal/activities.go, and how `ProcessQuery` and its callers turn raw
-- events into the events of a timeline.
use go_temporal_timeline.Prelude.{String, none, some, ◌⊎◌, inl, inr, List, [], ◌∷◌}
use go_temporal_timeline.GoTime.{Time}
use go_temporal_timeline.GoFloat.{FloatOps}
use go_temporal_timeline.GoResult.{Error, errorf, Outcome, ok, fail, panic}
use go_temporal_timeline.GoParse.{TimeParser, EventReader}
use go_temporal_timeline.Timeline.Types.{Event}
use go_temporal_timeline.Timeline.Classified.{
  TimelineEvent, basic, play, seek, rebuffer, generic, get_type, get_timestamp, get_attributes,
}
use go_temporal_timeline.Timeline.Classifier.{first_string, new_event_classifier, classify_event}

abbrev pub value_fields : List String
value_fields = "value" ∷ "state" ∷ "action" ∷ "status" ∷ []

-- The value that the attributes give to an event, or its type.
abbrev attribute_value : TimelineEvent → String
attribute_value e = elim (first_string value_fields (get_attributes e)) [
  | none ↦ get_type e
  | some s ↦ s
]

unfoldable pub extract_value : TimelineEvent → String
unfolding first_string
extract_value (basic e) = e.value
extract_value (play e) = attribute_value (play e)
extract_value (seek e) = attribute_value (seek e)
extract_value (rebuffer e) = attribute_value (rebuffer e)
extract_value (generic e) = attribute_value (generic e)

-- The body of the loop that fills `eventTimeline`.
unfoldable pub convert_event : TimelineEvent → Event
unfolding extract_value
convert_event e = record {
  timestamp = get_timestamp e;
  type = get_type e;
  value = extract_value e;
  attrs = get_attributes e;
}

-- The parsers of the service do not panic, so the last case does not occur.
abbrev converted : Outcome TimelineEvent → Error ⊎ Event
converted (ok e) = inr (convert_event e)
converted (fail e) = inl e
converted panic = inl (errorf "panic" [])

module _ (now : Time) ⦃t : TimeParser⦄ ⦃f : FloatOps⦄ {A : Type 0} ⦃r : EventReader A⦄ where
  -- `ClassifyEvent` and the conversion of its event.
  unfoldable pub read_event : A → Error ⊎ Event
  unfolding convert_event classify_event
  read_event raw = converted (classify_event now (new_event_classifier now) raw)
