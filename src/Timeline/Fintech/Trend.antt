-- ===== src/Timeline/Fintech/Trend.antt =====
-- `RSI`, `MACD` and `calculateEMA` of pkg/timeline/fintech.go.
pub mod Window
use go_temporal_timeline.Prelude.{true, false, List, [], ◌∷◌, ◌++◌, if◌then◌else◌}
use go_temporal_timeline.GoTime.{Time, Duration, after}
use go_temporal_timeline.GoSort.{Sorter}
use go_temporal_timeline.GoFloat.{Float64, FloatOps, zero_float, float_gt}
use go_temporal_timeline.GoValue.{float, field, no_fields}
use go_temporal_timeline.Timeline.Types.{NumericValue, PriceTimeline}
use go_temporal_timeline.Timeline.Aggregations.{by_timestamp}
use go_temporal_timeline.Timeline.Aggregations.Statistics.{avg_values}
use go_temporal_timeline.Timeline.Aggregations.Moving.{window_start}
use go_temporal_timeline.Timeline.Fintech.Types.{FinancialTimeline, zero_metric}

-- The variables `gains` and `losses`.
pub record Changes : Type 0 where
  pub gains : List Float64
  pub losses : List Float64

module _ ⦃f : FloatOps⦄ where
  changes_step : Changes → NumericValue → NumericValue → Changes
  changes_step c previous v =
      let change = f.sub v.value previous.value in
      if float_gt change zero_float
      then record c { gains = c.gains ++ change ∷ [] }
      else if f.lt change zero_float
      then record c { losses = c.losses ++ f.neg change ∷ [] }
      else c

  -- The inner loop from `j = 1` to `i`; it ends at the first value that is not in the window.
  -- `previous` is `sorted[j-1]`, and the list is `sorted[j]` to `sorted[i]`.
  changes_loop : Time → Changes → NumericValue → PriceTimeline → Changes
  changes_loop start c previous [] = c
  changes_loop start c previous (v ∷ vs) = elim (after v.timestamp start) [
    | true ↦ changes_loop start (changes_step c previous v) v vs
    | false ↦ c
  ]

  rsi_append : FinancialTimeline → Changes → NumericValue → Duration → FinancialTimeline
  rsi_append results c current window = both c.gains c.losses
    where
      both : List Float64 → List Float64 → FinancialTimeline
      both (g ∷ gains) (l ∷ losses) =
          let rs = f.div (avg_values (g ∷ gains)) (avg_values (l ∷ losses)) in
          results
          ++ record zero_metric {
            type = "RSI";
            value = f.sub (f.literal 100 1) (f.div (f.literal 100 1) (f.add (f.literal 1 1) rs));
            timestamp = current.timestamp;
            symbol = current.symbol;
            period = window;
          }
            ∷ []
      both _ _ = results

  -- `first` is `sorted[0]`, `earlier` is `sorted[1]` to `sorted[i-1]`.
  pub rsi_rounds :
      FinancialTimeline
      → NumericValue
      → PriceTimeline
      → PriceTimeline
      → Duration
      → FinancialTimeline
  rsi_rounds results first earlier [] window = results
  rsi_rounds results first earlier (current ∷ rest) window =
      rsi_rounds
        (rsi_append results
          (changes_loop (window_start current window) (record { gains = []; losses = [] }) first
            (earlier ++ current ∷ []))
          current window)
        first (earlier ++ current ∷ []) rest window

  rsi_sorted : PriceTimeline → Duration → FinancialTimeline
  rsi_sorted [] window = []
  rsi_sorted (first ∷ rest) window = rsi_rounds [] first [] rest window

  -- `previous` is `ema[i-1]`.
  ema_loop : Float64 → PriceTimeline → NumericValue → PriceTimeline → PriceTimeline
  ema_loop alpha ema previous [] = ema
  ema_loop alpha ema previous (v ∷ vs) =
      let next : NumericValue = record {
        timestamp = v.timestamp;
        value = f.add (f.mul alpha v.value) (f.mul (f.sub (f.literal 1 1) alpha) previous.value);
        volume = zero_float;
        symbol = v.symbol;
        price = zero_float;
      } in
      ema_loop alpha (ema ++ next ∷ []) next vs

  ema_sorted : Float64 → PriceTimeline → PriceTimeline
  ema_sorted alpha [] = []
  ema_sorted alpha (v ∷ vs) = ema_loop alpha (v ∷ []) v vs

  -- The loop over the two averages, as far as both reach.
  macd_line : PriceTimeline → PriceTimeline → PriceTimeline → PriceTimeline
  macd_line line (a ∷ fast) (b ∷ slow) =
      macd_line
        (line
          ++ record {
            timestamp = a.timestamp;
            value = f.sub a.value b.value;
            volume = zero_float;
            symbol = "";
            price = zero_float;
          }
            ∷ [])
        fast slow
  macd_line line _ _ = line

  macd_results : FinancialTimeline → PriceTimeline → PriceTimeline → FinancialTimeline
  macd_results results (m ∷ line) (g ∷ signal) =
      macd_results
        (results
          ++ record zero_metric {
            type = "MACD_Line";
            value = m.value;
            timestamp = m.timestamp;
            metadata =
                field "signal" (float g.value)
                  (field "histogram" (float (f.sub m.value g.value)) no_fields);
          }
            ∷ [])
        line signal
  macd_results results _ _ = results

  module _ ⦃s : Sorter⦄ where
    unfoldable pub rsi : PriceTimeline → Duration → FinancialTimeline
    unfolding rsi_sorted rsi_rounds rsi_append changes_loop changes_step avg_values
    rsi (v ∷ v' ∷ timeline) window = rsi_sorted (by_timestamp (v ∷ v' ∷ timeline)) window
    rsi _ window = []

    unfoldable pub calculate_ema : PriceTimeline → Duration → PriceTimeline
    unfolding ema_sorted ema_loop
    calculate_ema [] period = []
    calculate_ema (v ∷ timeline) period =
        ema_sorted (f.div (f.literal 2 1) (f.add (f.hours period) (f.literal 1 1)))
          (by_timestamp (v ∷ timeline))

    unfoldable pub macd : PriceTimeline → Duration → Duration → Duration → FinancialTimeline
    unfolding macd_line macd_results calculate_ema
    macd [] fast slow signal = []
    macd (v ∷ timeline) fast slow signal =
        let line =
          macd_line [] (calculate_ema (v ∷ timeline) fast) (calculate_ema (v ∷ timeline) slow) in
        macd_results [] line (calculate_ema line signal)
