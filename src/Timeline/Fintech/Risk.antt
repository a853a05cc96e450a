-- ===== src/Timeline/Fintech/Risk.antt =====
-- `VaR` and `Drawdown` of pkg/timeline/fintech.go. An index out of range is a panic.
use go_temporal_timeline.Prelude.{◌-◌, List, [], ◌∷◌, ◌++◌, length, map, ltb, if◌then◌else◌}
use go_temporal_timeline.Prelude.Int.{ℤ, pos, leb_ℤ}
use go_temporal_timeline.GoTime.{Duration}
use go_temporal_timeline.GoSort.{Sorter}
use go_temporal_timeline.GoFloat.{Float64, FloatOps, float_gt}
use go_temporal_timeline.GoValue.{float, field, no_fields}
use go_temporal_timeline.GoResult.{Outcome, ok, ◌>>=◌}
use go_temporal_timeline.Timeline.Types.{NumericValue, PriceTimeline}
use go_temporal_timeline.Timeline.Aggregations.{by_timestamp}
use go_temporal_timeline.Timeline.Aggregations.Statistics.{index_float}
use go_temporal_timeline.Timeline.Aggregations.Moving.{since_loop, window_start}
use go_temporal_timeline.Timeline.Fintech.Types.{FinancialTimeline, zero_metric, RiskMetric}

module _ ⦃f : FloatOps⦄ where
  -- `index`: it is cut off at the last place, and not at zero.
  var_index : Float64 → List Float64 → ℤ
  var_index confidence returns =
      let index = f.to_int (
        f.mul (f.sub (f.literal 1 1) (f.div confidence (f.literal 100 1)))
          (f.of_int (pos (length returns)))) in
      if leb_ℤ (pos (length returns)) index then pos (length returns - 1) else index

  -- The end of a round, which wants more than ten values.
  var_append :
      List RiskMetric → List Float64 → NumericValue → Duration → Float64 → Outcome (List RiskMetric)
  var_append results returns current window confidence =
      if ltb 10 (length returns)
      then index_float (f.sort_floats returns) (var_index confidence (f.sort_floats returns))
        >>= (λ x. ok (
            results
            ++ record {
              type = "VaR";
              value = f.neg x;
              confidence = confidence;
              timestamp = current.timestamp;
              period = window;
              symbol = current.symbol;
            }
              ∷ []))
      else ok results

  var_rounds :
      List RiskMetric
      → PriceTimeline
      → PriceTimeline
      → Duration
      → Float64
      → Outcome (List RiskMetric)
  var_rounds results earlier [] window confidence = ok results
  var_rounds results earlier (current ∷ rest) window confidence =
      var_append results
        (map (λ v. v.value) (since_loop (window_start current window) [] (earlier ++ current ∷ [])))
        current window confidence
      >>= λ results'. var_rounds results' (earlier ++ current ∷ []) rest window confidence

  drawdown_loop : FinancialTimeline → Float64 → PriceTimeline → FinancialTimeline
  drawdown_loop results peak [] = results
  drawdown_loop results peak (current ∷ rest) =
      let peak' = if float_gt current.value peak then current.value else peak in
      drawdown_loop
        (results
          ++ record zero_metric {
            type = "Drawdown";
            value = f.mul (f.div (f.sub current.value peak') peak') (f.literal 100 1);
            timestamp = current.timestamp;
            symbol = current.symbol;
            metadata = field "peak" (float peak') (
                field "current" (float current.value)
                  (field "absolute" (float (f.sub current.value peak')) no_fields));
          }
            ∷ [])
        peak' rest

  drawdown_sorted : PriceTimeline → FinancialTimeline
  drawdown_sorted [] = []
  drawdown_sorted (first ∷ rest) = drawdown_loop [] first.value (first ∷ rest)

  module _ ⦃s : Sorter⦄ where
    unfoldable pub var : PriceTimeline → Duration → Float64 → Outcome (List RiskMetric)
    unfolding var_rounds var_append var_index since_loop
    var [] window confidence = ok []
    var (v ∷ returns) window confidence =
        var_rounds [] [] (by_timestamp (v ∷ returns)) window confidence

    unfoldable pub drawdown : PriceTimeline → FinancialTimeline
    unfolding drawdown_sorted drawdown_loop
    drawdown [] = []
    drawdown (v ∷ timeline) = drawdown_sorted (by_timestamp (v ∷ timeline))
