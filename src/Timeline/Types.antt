-- ===== src/Timeline/Types.antt =====
-- pkg/timeline/types.go: events, and timelines as lists of intervals.
use go_temporal_timeline.Prelude.{Bool, String, List}
use go_temporal_timeline.GoTime.{Time}
use go_temporal_timeline.GoFloat.{Float64}
use go_temporal_timeline.GoValue.{Fields}

pub record Event : Type 0 where
  pub timestamp : Time
  pub type : String
  pub value : String
  pub attrs : Fields

abbrev pub EventTimeline : Type 0
EventTimeline = List Event

pub record StateInterval : Type 0 where
  pub state : String
  pub start : Time
  pub end : Time

abbrev pub StateTimeline : Type 0
StateTimeline = List StateInterval

pub record BoolInterval : Type 0 where
  pub value : Bool
  pub start : Time
  pub end : Time

abbrev pub BoolTimeline : Type 0
BoolTimeline = List BoolInterval

pub record NumericInterval : Type 0 where
  pub value : Float64
  pub start : Time
  pub end : Time

abbrev pub NumericTimeline : Type 0
NumericTimeline = List NumericInterval

pub record NumericValue : Type 0 where
  pub timestamp : Time
  pub value : Float64
  pub volume : Float64
  pub symbol : String
  pub price : Float64

abbrev pub PriceTimeline : Type 0
PriceTimeline = List NumericValue
