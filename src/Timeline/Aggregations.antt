-- ===== src/Timeline/Aggregations.antt =====
-- pkg/timeline/aggregations.go: aggregates of a price timeline, over all of it, over moving
-- windows and over given windows. An index out of range is a panic.
pub mod Statistics
pub mod Convert
pub mod Moving
use go_temporal_timeline.Prelude.{
  ℕ, ◌-◌, Bool, true, false, ◌||◌, String, Option, none, some, List, [], ◌∷◌, ◌++◌, length, map,
  last_from, str_eq, if◌then◌else◌,
}
use go_temporal_timeline.Prelude.Int.{pos}
use go_temporal_timeline.GoTime.{Time, Duration, zero_time, after, equal, add, neg_duration}
use go_temporal_timeline.GoSort.{Sorter, sort_by}
use go_temporal_timeline.GoFloat.{Float64, FloatOps, zero_float}
use go_temporal_timeline.GoResult.{Outcome, ok, ◌>>=◌}
use go_temporal_timeline.Timeline.Types.{NumericValue, PriceTimeline}
use go_temporal_timeline.Timeline.Windows.{
  Window, empty_window, sliding_window, apply_window_to_price_timeline,
}
use Statistics.{
  sum_values, avg_values, min_values, max_values, variance_values, std_dev_values,
  percentile_values,
}

-- An `AggregationType` is a string.
pub record AggregationResult : Type 0 where
  pub type : String
  pub value : Float64
  pub count : ℕ
  pub window : Window
  pub timestamp : Time

pub record MovingAggregation : Type 0 where
  pub type : String
  pub window : Duration
  pub results : List AggregationResult

abbrev pub by_timestamp : ⦃s : Sorter⦄ → PriceTimeline → PriceTimeline
by_timestamp timeline = sort_by (λ v. v.timestamp) timeline

abbrev pub empty_result : String → AggregationResult
empty_result agg_type = record {
  type = agg_type;
  value = zero_float;
  count = 0;
  window = empty_window;
  timestamp = zero_time;
}

module _ ⦃f : FloatOps⦄ where
  -- The `switch` of `Aggregate` on values that are not empty: `first` and those behind it.
  aggregate_values : String → Float64 → List Float64 → Float64 → Outcome Float64
  aggregate_values agg_type first rest percentile =
      let values = first ∷ rest in
      if str_eq agg_type "sum"
      then ok (sum_values values)
      else if str_eq agg_type "avg"
      then ok (avg_values values)
      else if str_eq agg_type "min"
      then ok (min_values values)
      else if str_eq agg_type "max"
      then ok (max_values values)
      else if str_eq agg_type "count"
      then ok (f.of_int (pos (length values)))
      else if str_eq agg_type "stddev"
      then ok (std_dev_values values)
      else if str_eq agg_type "variance"
      then ok (variance_values values)
      else if str_eq agg_type "percentile"
      then percentile_values values percentile
      else if str_eq agg_type "median"
      then percentile_values values (f.literal 50 1)
      else if str_eq agg_type "first"
      then ok first
      else if str_eq agg_type "last"
      then ok (last_from first rest)
      else ok zero_float

  aggregate_sorted : PriceTimeline → String → Float64 → ℕ → Outcome AggregationResult
  aggregate_sorted [] agg_type percentile n = ok (empty_result agg_type)
  aggregate_sorted (first ∷ rest) agg_type percentile n = do
    v ← aggregate_values agg_type first.value (map (λ i. i.value) rest) percentile
    ok (record (empty_result agg_type) {
      value = v;
      count = n;
      timestamp = (last_from first rest).timestamp;
    })

  module _ ⦃s : Sorter⦄ where
    unfoldable pub aggregate : PriceTimeline → String → Float64 → Outcome AggregationResult
    unfolding aggregate_sorted aggregate_values
    aggregate [] agg_type percentile = ok (empty_result agg_type)
    aggregate (v ∷ timeline) agg_type percentile =
        aggregate_sorted (by_timestamp (v ∷ timeline)) agg_type percentile (length (v ∷ timeline))
