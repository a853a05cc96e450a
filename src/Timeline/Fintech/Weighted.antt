-- ===== src/Timeline/Fintech/Weighted.antt =====
-- `TWAP` and `VWAP` of pkg/timeline/fintech.go.
use go_temporal_timeline.Prelude.{[], ◌∷◌, ◌++◌, map, if◌then◌else◌}
use go_temporal_timeline.GoTime.{Duration, sub}
use go_temporal_timeline.GoSort.{Sorter}
use go_temporal_timeline.GoFloat.{Float64, FloatOps, zero_float, float_gt}
use go_temporal_timeline.Timeline.Types.{NumericValue, PriceTimeline}
use go_temporal_timeline.Timeline.Aggregations.{by_timestamp}
use go_temporal_timeline.Timeline.Aggregations.Statistics.{avg_values}
use go_temporal_timeline.Timeline.Aggregations.Moving.{since_loop, window_start}
use go_temporal_timeline.Timeline.Fintech.Types.{FinancialTimeline, zero_metric}

module _ ⦃f : FloatOps⦄ where
  -- `previous` is `data[i-1]`.
  twap_loop : Float64 → Float64 → NumericValue → PriceTimeline → Float64
  twap_loop total_value total_time previous [] =
      if float_gt total_time zero_float then f.div total_value total_time else previous.value
  twap_loop total_value total_time previous (v ∷ vs) =
      let time_diff = f.seconds (sub v.timestamp previous.timestamp) in
      let value = f.div (f.add v.value previous.value) (f.literal 2 1) in
      twap_loop (f.add total_value (f.mul value time_diff)) (f.add total_time time_diff) v vs

  -- The data is its first value and those behind it; with one value the loop makes no round.
  unfoldable pub calculate_twap : NumericValue → PriceTimeline → Float64
  unfolding twap_loop sub
  calculate_twap first [] = first.value
  calculate_twap first (v ∷ vs) = twap_loop zero_float zero_float first (v ∷ vs)

  vwap_loop : Float64 → Float64 → PriceTimeline → Float64
  vwap_loop total_value total_volume [] = total_value
  vwap_loop total_value total_volume (v ∷ vs) =
      vwap_loop
        (if float_gt v.volume zero_float
          then f.add total_value (f.mul v.value v.volume)
          else total_value)
        total_volume vs

  volume_loop : Float64 → PriceTimeline → Float64
  volume_loop total_volume [] = total_volume
  volume_loop total_volume (v ∷ vs) =
      volume_loop
        (if float_gt v.volume zero_float then f.add total_volume v.volume else total_volume) vs

  -- The two totals of one loop, each by a loop of its own.
  unfoldable pub calculate_vwap : PriceTimeline → Float64
  unfolding vwap_loop volume_loop avg_values
  calculate_vwap timeline =
      let total_volume = volume_loop zero_float timeline in
      if float_gt total_volume zero_float
      then f.div (vwap_loop zero_float zero_float timeline) total_volume
      else avg_values (map (λ v. v.value) timeline)

  -- The end of a round of `TWAP`, which wants two values or more.
  twap_append : FinancialTimeline → PriceTimeline → NumericValue → Duration → FinancialTimeline
  twap_append results (v ∷ v' ∷ vs) current window =
      results
      ++ record zero_metric {
        type = "TWAP";
        value = calculate_twap v (v' ∷ vs);
        timestamp = current.timestamp;
        symbol = current.symbol;
        period = window;
      }
        ∷ []
  twap_append results _ current window = results

  twap_rounds : FinancialTimeline → PriceTimeline → PriceTimeline → Duration → FinancialTimeline
  twap_rounds results earlier [] window = results
  twap_rounds results earlier (current ∷ rest) window =
      twap_rounds
        (twap_append results (since_loop (window_start current window) [] (earlier ++ current ∷ []))
          current window)
        (earlier ++ current ∷ []) rest window

  vwap_append : FinancialTimeline → PriceTimeline → NumericValue → Duration → FinancialTimeline
  vwap_append results [] current window = results
  vwap_append results (v ∷ vs) current window =
      results
      ++ record zero_metric {
        type = "VWAP";
        value = calculate_vwap (v ∷ vs);
        timestamp = current.timestamp;
        symbol = current.symbol;
        period = window;
      }
        ∷ []

  vwap_rounds : FinancialTimeline → PriceTimeline → PriceTimeline → Duration → FinancialTimeline
  vwap_rounds results earlier [] window = results
  vwap_rounds results earlier (current ∷ rest) window =
      vwap_rounds
        (vwap_append results (since_loop (window_start current window) [] (earlier ++ current ∷ []))
          current window)
        (earlier ++ current ∷ []) rest window

  module _ ⦃s : Sorter⦄ where
    unfoldable pub twap : PriceTimeline → Duration → FinancialTimeline
    unfolding twap_rounds twap_append calculate_twap since_loop
    twap [] window = []
    twap (v ∷ timeline) window = twap_rounds [] [] (by_timestamp (v ∷ timeline)) window

    unfoldable pub vwap : PriceTimeline → Duration → FinancialTimeline
    unfolding vwap_rounds vwap_append calculate_vwap since_loop
    vwap [] window = []
    vwap (v ∷ timeline) window = vwap_rounds [] [] (by_timestamp (v ∷ timeline)) window
