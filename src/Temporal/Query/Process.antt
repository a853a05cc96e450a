-- ===== src/Temporal/Query/Process.antt =====
-- `ProcessQuery` and `determineUnit` of pkg/temporal/activities.go.
use go_temporal_timeline.Prelude.{String, none, some, List, [], ◌∷◌, length, last_from}
use go_temporal_timeline.Prelude.Int.{pos}
use go_temporal_timeline.GoSort.{Sorter}
use go_temporal_timeline.GoFloat.{FloatOps}
use go_temporal_timeline.GoResult.{Outcome, ok, ◌>>=◌, wrap_error}
use go_temporal_timeline.GoParse.{Parser}
use go_temporal_timeline.Timeline.Types.{EventTimeline}
use go_temporal_timeline.Temporal.Types.{
  QueryOperation, head_of, QueryValue, whole, number, states, bools, QueryResult, Entry, find,
  index_results,
}
use go_temporal_timeline.Temporal.Query.Operators.{execute_operation}

abbrev pub determine_unit : QueryValue → String
determine_unit (number x) = "seconds"
determine_unit (whole n) = "seconds"
determine_unit (states s) = "intervals"
determine_unit (bools b) = "boolean_intervals"
determine_unit _ = ""

-- `finalResult`, for the id of the last operation.
abbrev pub final_result : List Entry → String → QueryValue
final_result results last = elim (find "result" results) [
  | none ↦ index_results results last
  | some v ↦ v
]

module _ ⦃p : Parser⦄ ⦃f : FloatOps⦄ ⦃s : Sorter⦄ where
  -- The loop over the operations.
  unfoldable pub operations_loop :
      EventTimeline → List Entry → List QueryOperation → Outcome (List Entry)
  unfolding execute_operation
  operations_loop events results [] = ok results
  operations_loop events results (op ∷ ops) =
      wrap_error "failed to execute operation %s: %w" ((head_of op).id ∷ [])
        (execute_operation events op results)
      >>= λ v. operations_loop events (record { id = (head_of op).id; value = v } ∷ results) ops

  -- The events are those that the loop over the interface has converted.
  unfoldable pub process_query : EventTimeline → List QueryOperation → Outcome QueryResult
  unfolding operations_loop find
  process_query events [] =
      ok (record { result = whole (pos 0); unit = ""; event_count = none; operation_count = none })
  process_query events (op ∷ ops) = operations_loop events [] (op ∷ ops) >>= λ results.
      let final = final_result results (head_of (last_from op ops)).id in
      ok (record {
        result = final;
        unit = determine_unit final;
        event_count = some (length events);
        operation_count = some (length (op ∷ ops));
      })
