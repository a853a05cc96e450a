-- ===== src/Timeline/Fintech/Flow.antt =====
-- `TransactionVelocity` and `PositionExposure` of pkg/timeline/fintech.go.
use go_temporal_timeline.Prelude.{true, false, ◌||◌, [], ◌∷◌, ◌++◌, length, map}
use go_temporal_timeline.Prelude.Int.{pos}
use go_temporal_timeline.GoTime.{Time, Duration, before, equal}
use go_temporal_timeline.GoSort.{Sorter}
use go_temporal_timeline.GoFloat.{FloatOps}
use go_temporal_timeline.GoValue.{float, int, field, no_fields}
use go_temporal_timeline.Timeline.Types.{NumericValue, PriceTimeline}
use go_temporal_timeline.Timeline.Aggregations.{by_timestamp}
use go_temporal_timeline.Timeline.Aggregations.Statistics.{sum_values}
use go_temporal_timeline.Timeline.Aggregations.Moving.{since_loop, window_start}
use go_temporal_timeline.Timeline.Fintech.Types.{FinancialMetric, FinancialTimeline, zero_metric}

module _ ⦃f : FloatOps⦄ where
  -- The round on the values of the window, in which `count` and `totalAmount` run along.
  velocity : PriceTimeline → NumericValue → Duration → FinancialMetric
  velocity found current window =
      let count = f.of_int (pos (length found)) in
      let total = sum_values (map (λ v. v.value) found) in
      record zero_metric {
        type = "TransactionVelocity";
        value = f.div count (f.hours window);
        timestamp = current.timestamp;
        period = window;
        metadata = field "transaction_count" (int (pos (length found))) (
            field "total_amount" (float total)
              (field "avg_amount" (float (f.div total count)) no_fields));
      }

  velocity_rounds : FinancialTimeline → PriceTimeline → PriceTimeline → Duration → FinancialTimeline
  velocity_rounds results earlier [] window = results
  velocity_rounds results earlier (current ∷ rest) window =
      velocity_rounds
        (results
          ++ velocity (since_loop (window_start current window) [] (earlier ++ current ∷ []))
              current window
            ∷ [])
        (earlier ++ current ∷ []) rest window

  -- `sortedPrices[priceIndex]` and those behind it: the loop moves on while the next price is not
  -- after the time.
  advance : Time → NumericValue → PriceTimeline → PriceTimeline
  advance time current [] = current ∷ []
  advance time current (next ∷ rest) =
      elim (before next.timestamp time || equal next.timestamp time) [
        | true ↦ advance time next rest
        | false ↦ current ∷ next ∷ rest
      ]

  exposure : NumericValue → NumericValue → FinancialMetric
  exposure position price = record zero_metric {
    type = "PositionExposure";
    value = f.mul position.value price.value;
    timestamp = position.timestamp;
    symbol = position.symbol;
    metadata =
        field "position" (float position.value) (field "price" (float price.value) no_fields);
  }

  exposure_append : FinancialTimeline → NumericValue → PriceTimeline → FinancialTimeline
  exposure_append results position [] = results
  exposure_append results position (price ∷ prices) = results ++ exposure position price ∷ []

  -- The list is `sortedPrices` from `priceIndex` on.
  from_index : Time → PriceTimeline → PriceTimeline
  from_index time [] = []
  from_index time (price ∷ prices) = advance time price prices

  exposure_rounds : FinancialTimeline → PriceTimeline → PriceTimeline → FinancialTimeline
  exposure_rounds results prices [] = results
  exposure_rounds results prices (position ∷ rest) =
      let prices' = from_index position.timestamp prices in
      exposure_rounds (exposure_append results position prices') prices' rest

  module _ ⦃s : Sorter⦄ where
    unfoldable pub transaction_velocity : PriceTimeline → Duration → FinancialTimeline
    unfolding velocity_rounds velocity since_loop sum_values
    transaction_velocity [] window = []
    transaction_velocity (v ∷ transactions) window =
        velocity_rounds [] [] (by_timestamp (v ∷ transactions)) window

    unfoldable pub position_exposure : PriceTimeline → PriceTimeline → FinancialTimeline
    unfolding exposure_rounds exposure_append exposure from_index advance
    position_exposure (p ∷ positions) (q ∷ prices) =
        exposure_rounds [] (by_timestamp (q ∷ prices)) (by_timestamp (p ∷ positions))
    position_exposure _ _ = []
