-- ===== src/Temporal/Query/Params.antt =====
-- The helpers of the query processor of pkg/temporal/activities.go.
use go_temporal_timeline.Prelude.{
  true, String, none, some, List, [], ◌∷◌, ◌++◌, str_eq, if◌then◌else◌,
}
use go_temporal_timeline.GoTime.{Duration}
use go_temporal_timeline.GoFloat.{Float64, FloatOps}
use go_temporal_timeline.GoValue.{float, int, int64, Fields, lookup, as_string}
use go_temporal_timeline.GoResult.{Outcome, wrap_error}
use go_temporal_timeline.GoParse.{Parser, parsed_duration}
use go_temporal_timeline.Timeline.Types.{EventTimeline, StateTimeline, BoolTimeline, PriceTimeline}
use go_temporal_timeline.Timeline.Aggregations.Convert.{convert_event_timeline_to_price_timeline}
use go_temporal_timeline.Temporal.Types.{OperationHead, Entry, index_results, as_bools, as_states}

filter_loop : String → EventTimeline → EventTimeline → EventTimeline
filter_loop type filtered [] = filtered
filter_loop type filtered (event ∷ rest) =
    filter_loop type (if str_eq event.type type then filtered ++ event ∷ [] else filtered) rest

unfoldable pub filter_events_by_type : EventTimeline → String → EventTimeline
unfolding filter_loop
filter_events_by_type events type = filter_loop type [] events

as_true_loop : BoolTimeline → StateTimeline → BoolTimeline
as_true_loop timeline [] = timeline
as_true_loop timeline (i ∷ is) =
    as_true_loop (timeline ++ record { value = true; start = i.start; end = i.end } ∷ []) is

unfoldable pub convert_state_timeline_to_bool_timeline : StateTimeline → BoolTimeline
unfolding as_true_loop
convert_state_timeline_to_bool_timeline timeline = as_true_loop [] timeline

unfoldable pub get_string_param : Fields → String → String → String
unfolding lookup
get_string_param params key default = elim (lookup key params) [
  | none ↦ default
  | some v ↦ elim (as_string v) [ none ↦ default | some s ↦ s ]
]

-- The timelines of the operations that are named, where `Op` is AND or OR: those that are not
-- boolean are passed over.
unfoldable pub bool_timelines : List Entry → List BoolTimeline → List String → List BoolTimeline
bool_timelines results timelines [] = timelines
bool_timelines results timelines (id ∷ ids) =
    bool_timelines results
      (elim (as_bools (index_results results id)) [
        | none ↦ timelines
        | some b ↦ timelines ++ b ∷ []
      ])
      ids

-- The same under DurationWhere, which takes state timelines too.
unfoldable pub condition_timelines :
    List Entry → List BoolTimeline → List String → List BoolTimeline
unfolding convert_state_timeline_to_bool_timeline
condition_timelines results timelines [] = timelines
condition_timelines results timelines (id ∷ ids) =
    condition_timelines results
      (elim (as_bools (index_results results id)) [
        | some b ↦ timelines ++ b ∷ []
        | none ↦ elim (as_states (index_results results id)) [
          | none ↦ timelines
          | some s ↦ timelines ++ convert_state_timeline_to_bool_timeline s ∷ []
        ]
      ])
      ids

-- `time.ParseDuration(getStringParam(op.Params, key, def))` with the error of the operation.
unfoldable pub duration_param :
    ⦃p : Parser⦄ → OperationHead → String → String → String → Outcome Duration
unfolding get_string_param
duration_param h key default message =
    wrap_error message [] (parsed_duration (get_string_param h.params key default))

module _ ⦃f : FloatOps⦄ where
  unfoldable pub get_float_param : Fields → String → Float64 → Float64
  unfolding lookup
  get_float_param params key default = elim (lookup key params) [
    | none ↦ default
    | some v ↦ elim v [ float x ↦ x | int i ↦ f.of_int i | int64 i ↦ f.of_int i | _ ↦ default ]
  ]

  unfoldable pub convert_to_price_timeline : EventTimeline → OperationHead → PriceTimeline
  unfolding get_string_param
  convert_to_price_timeline events h =
      convert_event_timeline_to_price_timeline events (get_string_param h.params "value_field" "")
