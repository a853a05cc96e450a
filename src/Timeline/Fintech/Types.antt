-- ===== src/Timeline/Fintech/Types.antt =====
-- The results of pkg/timeline/fintech.go.
use go_temporal_timeline.Prelude.{String, List}
use go_temporal_timeline.Prelude.Int.{pos}
use go_temporal_timeline.GoTime.{Time, Duration, zero_time}
use go_temporal_timeline.GoFloat.{Float64, zero_float}
use go_temporal_timeline.GoValue.{Fields}

pub record FinancialMetric : Type 0 where
  pub type : String
  pub value : Float64
  pub timestamp : Time
  pub symbol : String
  pub period : Duration
  pub metadata : Fields

abbrev pub FinancialTimeline : Type 0
FinancialTimeline = List FinancialMetric

-- The zero value, from which the literals of the source are built.
abbrev pub zero_metric : FinancialMetric
zero_metric = record {
  type = "";
  value = zero_float;
  timestamp = zero_time;
  symbol = "";
  period = pos 0;
  metadata = Fields.no_fields;
}

pub record RiskMetric : Type 0 where
  pub type : String
  pub value : Float64
  pub confidence : Float64
  pub timestamp : Time
  pub period : Duration
  pub symbol : String
