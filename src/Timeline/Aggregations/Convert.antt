-- ===== src/Timeline/Aggregations/Convert.antt =====
-- `ConvertEventTimelineToNumeric` and `ConvertEventTimelineToPriceTimeline` of
-- pkg/timeline/aggregations.go.
use go_temporal_timeline.Prelude.{String, none, some, [], ◌∷◌, ◌++◌, str_eq, if◌then◌else◌}
use go_temporal_timeline.GoFloat.{Float64, FloatOps, zero_float}
use go_temporal_timeline.GoValue.{Fields, lookup, as_float}
use go_temporal_timeline.Timeline.Types.{Event, EventTimeline, NumericTimeline, PriceTimeline}

-- A field of the attributes as a float, or zero where it is missing or something else.
unfoldable pub float_field : String → Fields → Float64
unfolding lookup
float_field name attrs = elim (lookup name attrs) [
  | none ↦ zero_float
  | some v ↦ elim (as_float v) [ none ↦ zero_float | some x ↦ x ]
]

module _ ⦃f : FloatOps⦄ where
  -- `value` of both conversions.
  unfoldable pub event_value : String → Event → Float64
  unfolding float_field
  event_value value_field event =
      if str_eq value_field ""
      then if str_eq event.value "" then zero_float else f.literal 1 1
      else float_field value_field event.attrs

  numeric_loop : String → NumericTimeline → EventTimeline → NumericTimeline
  numeric_loop value_field numeric [] = numeric
  numeric_loop value_field numeric (event ∷ rest) =
      numeric_loop value_field
        (numeric
          ++ record {
            value = event_value value_field event;
            start = event.timestamp;
            end = event.timestamp;
          }
            ∷ [])
        rest

  unfoldable pub convert_event_timeline_to_numeric : EventTimeline → String → NumericTimeline
  unfolding numeric_loop event_value
  convert_event_timeline_to_numeric events value_field = numeric_loop value_field [] events

  prices_loop : String → PriceTimeline → EventTimeline → PriceTimeline
  prices_loop value_field numeric [] = numeric
  prices_loop value_field numeric (event ∷ rest) =
      prices_loop value_field
        (numeric
          ++ record {
            timestamp = event.timestamp;
            value = event_value value_field event;
            volume = float_field "volume" event.attrs;
            symbol = "";
            price = zero_float;
          }
            ∷ [])
        rest

  unfoldable pub convert_event_timeline_to_price_timeline : EventTimeline → String → PriceTimeline
  unfolding prices_loop event_value float_field
  convert_event_timeline_to_price_timeline events value_field = prices_loop value_field [] events
