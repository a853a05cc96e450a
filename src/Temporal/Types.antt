-- ===== src/Temporal/Types.antt =====
-- `QueryOperation` and `QueryResult` of pkg/temporal/workflows.go, and the values of a query.
use go_temporal_timeline.Prelude.{
  ℕ, Bool, String, Option, none, some, List, [], ◌∷◌, str_eq, if◌then◌else◌,
}
use go_temporal_timeline.Prelude.Int.{ℤ}
use go_temporal_timeline.GoTime.{Time}
use go_temporal_timeline.GoFloat.{Float64}
use go_temporal_timeline.GoValue.{Value, Fields}
use go_temporal_timeline.Timeline.Types.{StateTimeline, BoolTimeline, NumericTimeline}
use go_temporal_timeline.Timeline.Aggregations.{AggregationResult, MovingAggregation}
use go_temporal_timeline.Timeline.Fintech.Types.{FinancialTimeline, RiskMetric}

pub record TimeRange : Type 0 where
  pub start : Time
  pub end : Time

-- The fields of an operation but `Of`. The field `Window` is read nowhere in the processor.
pub record OperationHead : Type 0 where
  pub id : String
  pub op : String
  pub source : String
  pub equals : String
  pub window : String
  pub condition_all : List String
  pub condition_any : List String
  pub params : Fields

-- An operation whose `Of` is nil, or one with an operation there.
pub data QueryOperation : Type 0 where
  plain : OperationHead → QueryOperation
  nested : OperationHead → QueryOperation → QueryOperation

abbrev pub head_of : QueryOperation → OperationHead
head_of (plain h) = h
head_of (nested h o) = h

-- What the `interface{}` of a result holds.
pub data QueryValue : Type 0 where
  nothing : QueryValue
  whole : ℤ → QueryValue
  number : Float64 → QueryValue
  truth : Bool → QueryValue
  states : StateTimeline → QueryValue
  bools : BoolTimeline → QueryValue
  numerics : NumericTimeline → QueryValue
  metrics : FinancialTimeline → QueryValue
  risks : List RiskMetric → QueryValue
  moving : MovingAggregation → QueryValue
  aggregated : AggregationResult → QueryValue
  -- A list or an object of decoded JSON, or any other value there but `nil`, a bool and a number.
  decoded : Value → QueryValue

abbrev pub as_bools : QueryValue → Option BoolTimeline
as_bools (bools b) = some b
as_bools _ = none

abbrev pub as_states : QueryValue → Option StateTimeline
as_states (states s) = some s
as_states _ = none

-- `map[string]interface{}` of results by the id of the operation: the newest entry stands first.
pub record Entry : Type 0 where
  pub id : String
  pub value : QueryValue

unfoldable pub find : String → List Entry → Option QueryValue
find id [] = none
find id (e ∷ es) = if str_eq e.id id then some e.value else find id es

-- `results[id]`, which is nil for a missing key.
abbrev pub index_results : List Entry → String → QueryValue
index_results results id = elim (find id results) [ none ↦ nothing | some v ↦ v ]

-- The metadata of a result are counts; `processedAt` is the clock's.
pub record QueryResult : Type 0 where
  pub result : QueryValue
  pub unit : String
  pub event_count : Option ℕ
  pub operation_count : Option ℕ
