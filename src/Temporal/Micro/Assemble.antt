-- ===== src/Temporal/Micro/Assemble.antt =====
-- `assembleOperatorResults` of pkg/temporal/micro_workflows.go.
use go_temporal_timeline.Prelude.{
  ℕ, ◌+◌, String, Option, none, some, List, [], ◌∷◌, ◌++◌, length, str_eq, if◌then◌else◌, last_from,
}
use go_temporal_timeline.Prelude.Int.{pos}
use go_temporal_timeline.GoResult.{Error}
use go_temporal_timeline.Temporal.Types.{
  OperationHead, QueryOperation, head_of, QueryValue, nothing, whole,
}
use go_temporal_timeline.Temporal.Micro.{OperatorResult, Named, find_result, Naming}

-- The metadata that `assembleOperatorResults` sets.
pub data MicroMetadata : Type 0 where
  all_failed : List String → MicroMetadata
  counted : (total_events successful failed operators : ℕ) → MicroMetadata

-- Its result: `none` is the nil map.
pub record MicroResult : Type 0 where
  pub result : QueryValue
  pub unit : String
  pub metadata : Option MicroMetadata

-- The variables of its loop.
pub record MicroTally : Type 0 where
  pub successful : List OperatorResult
  pub failed : List String
  pub total_events : ℕ

-- An iteration, for the error of the entry.
abbrev pub count_entry : MicroTally → Named → Option Error → MicroTally
count_entry t n (some e) = record t { failed = t.failed ++ n.key ∷ [] }
count_entry t n none = record t {
  successful = t.successful ++ n.value ∷ [];
  total_events = elim n.value.event_count [ none ↦ t.total_events | some k ↦ t.total_events + k ];
}

abbrev pub micro_step : MicroTally → Named → MicroTally
micro_step t n = count_entry t n n.value.error

unfoldable pub micro_loop : MicroTally → List Named → MicroTally
micro_loop t [] = t
micro_loop t (n ∷ ns) = micro_loop (micro_step t n) ns

-- `exists && result.Error == nil`, with the result.
abbrev pub without_error : OperatorResult → Option Error → Option OperatorResult
without_error r none = some r
without_error r (some e) = none

abbrev pub usable : Option OperatorResult → Option OperatorResult
usable none = none
usable (some r) = without_error r r.error

abbrev pub or_else : Option OperatorResult → OperatorResult → OperatorResult
or_else none first = first
or_else (some r) first = r

module _ ⦃m : Naming⦄ where
  -- The id that the last operation is looked up by.
  abbrev pub last_id : OperationHead → String
  last_id h = if str_eq h.id "" then m.partition_name h.op 0 else h.id

  unfoldable pub choose_result : List Named → OperatorResult → QueryOperation → OperatorResult
  choose_result results first last =
      or_else (usable (find_result (m.partition_name (last_id (head_of last)) 0) results)) first

  unfoldable pub micro_final :
      List Named → MicroTally → List OperatorResult → List QueryOperation → MicroResult
  micro_final results t [] operations = record {
    result = nothing;
    unit = "";
    metadata = some (all_failed t.failed);
  }
  micro_final results t (first ∷ rest) [] = record {
    result = nothing;
    unit = "";
    metadata = some (counted t.total_events (length (first ∷ rest)) (length t.failed) 0);
  }
  micro_final results t (first ∷ rest) (op ∷ ops) =
      let r = choose_result results first (last_from op ops) in
      record {
        result = r.result;
        unit = r.unit;
        metadata =
            some (
              counted t.total_events (length (first ∷ rest)) (length t.failed) (length (op ∷ ops)));
      }

  -- The loop ranges over the map in some order; `ranged` is its entries in that order.
  unfoldable pub assemble_operator_results :
      (ranged results : List Named) → List QueryOperation → MicroResult
  unfolding micro_final choose_result micro_loop find_result
  assemble_operator_results ranged [] operations = record {
    result = whole (pos 0);
    unit = "";
    metadata = none;
  }
  assemble_operator_results ranged (n ∷ ns) operations =
      let t = micro_loop (record { successful = []; failed = []; total_events = 0 }) ranged in
      micro_final (n ∷ ns) t t.successful operations
