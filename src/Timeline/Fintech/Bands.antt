-- ===== src/Timeline/Fintech/Bands.antt =====
-- `BollingerBands` and `SharpeRatio` of pkg/timeline/fintech.go.
use go_temporal_timeline.Prelude.{List, [], ◌∷◌, ◌++◌, if◌then◌else◌}
use go_temporal_timeline.GoTime.{Duration}
use go_temporal_timeline.GoSort.{Sorter}
use go_temporal_timeline.GoFloat.{Float64, FloatOps, zero_float, float_gt}
use go_temporal_timeline.GoValue.{float, field, no_fields}
use go_temporal_timeline.GoResult.{Outcome, ok, ◌>>=◌}
use go_temporal_timeline.Timeline.Types.{PriceTimeline}
use go_temporal_timeline.Timeline.Aggregations.{AggregationResult}
use go_temporal_timeline.Timeline.Aggregations.Moving.{moving_aggregate}
use go_temporal_timeline.Timeline.Fintech.Types.{FinancialTimeline, zero_metric}

module _ ⦃f : FloatOps⦄ where
  -- The three metrics of one round.
  bands : AggregationResult → AggregationResult → Duration → Float64 → FinancialTimeline
  bands avg std window multiplier =
      let upper = f.add avg.value (f.mul multiplier std.value) in
      let lower = f.sub avg.value (f.mul multiplier std.value) in
      record zero_metric {
        type = "BollingerBands_Upper";
        value = upper;
        timestamp = avg.timestamp;
        period = window;
        metadata =
            field "middle" (float avg.value)
              (field "lower" (float lower) (field "stddev" (float std.value) no_fields));
      }
      ∷ record zero_metric {
        type = "BollingerBands_Middle";
        value = avg.value;
        timestamp = avg.timestamp;
        period = window;
      }
      ∷ record zero_metric {
        type = "BollingerBands_Lower";
        value = lower;
        timestamp = avg.timestamp;
        period = window;
      }
      ∷ []

  -- The loop runs over the averages, as far as there are standard deviations.
  bands_loop :
      FinancialTimeline
      → List AggregationResult
      → List AggregationResult
      → Duration
      → Float64
      → FinancialTimeline
  bands_loop results (a ∷ avgs) (d ∷ stds) window multiplier =
      bands_loop (results ++ bands a d window multiplier) avgs stds window multiplier
  bands_loop results _ _ window multiplier = results

  sharpe_append :
      FinancialTimeline
      → AggregationResult
      → AggregationResult
      → Duration
      → Float64
      → FinancialTimeline
  sharpe_append results avg std window rate =
      if float_gt std.value zero_float
      then results
        ++ record zero_metric {
          type = "SharpeRatio";
          value = f.div (f.sub avg.value rate) std.value;
          timestamp = avg.timestamp;
          period = window;
          metadata = field "mean_return" (float avg.value) (
              field "volatility" (float std.value) (field "risk_free_rate" (float rate) no_fields));
        }
          ∷ []
      else results

  sharpe_loop :
      FinancialTimeline
      → List AggregationResult
      → List AggregationResult
      → Duration
      → Float64
      → FinancialTimeline
  sharpe_loop results (a ∷ avgs) (d ∷ stds) window rate =
      sharpe_loop (sharpe_append results a d window rate) avgs stds window rate
  sharpe_loop results _ _ window rate = results

  module _ ⦃s : Sorter⦄ where
    unfoldable pub bollinger_bands : PriceTimeline → Duration → Float64 → Outcome FinancialTimeline
    unfolding bands_loop bands moving_aggregate
    bollinger_bands [] window multiplier = ok []
    bollinger_bands (v ∷ timeline) window multiplier = do
      avg ← moving_aggregate (v ∷ timeline) "avg" window zero_float
      std ← moving_aggregate (v ∷ timeline) "stddev" window zero_float
      ok (bands_loop [] avg.results std.results window multiplier)

    unfoldable pub sharpe_ratio : PriceTimeline → Duration → Float64 → Outcome FinancialTimeline
    unfolding sharpe_loop sharpe_append moving_aggregate
    sharpe_ratio [] window rate = ok []
    sharpe_ratio (v ∷ returns) window rate = do
      avg ← moving_aggregate (v ∷ returns) "avg" window zero_float
      std ← moving_aggregate (v ∷ returns) "stddev" window zero_float
      ok (sharpe_loop [] avg.results std.results window rate)
