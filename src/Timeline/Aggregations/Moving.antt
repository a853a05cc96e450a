-- ===== src/Timeline/Aggregations/Moving.antt =====
-- `MovingAggregate` and `WindowedAggregate` of pkg/timeline/aggregations.go.
pub mod Reports
use go_temporal_timeline.Prelude.{
  Bool, true, false, ◌||◌, String, List, [], ◌∷◌, ◌++◌, if◌then◌else◌,
}
use go_temporal_timeline.GoTime.{Time, Duration, after, equal, add, neg_duration}
use go_temporal_timeline.GoSort.{Sorter}
use go_temporal_timeline.GoFloat.{Float64, FloatOps}
use go_temporal_timeline.GoResult.{Outcome, ok, ◌>>=◌}
use go_temporal_timeline.Timeline.Types.{NumericValue, PriceTimeline}
use go_temporal_timeline.Timeline.Windows.{
  Window, empty_window, sliding_window, apply_window_to_price_timeline,
}
use go_temporal_timeline.Timeline.Aggregations.{
  AggregationResult, MovingAggregation, by_timestamp, aggregate,
}

-- The inner loop over `sorted[0]` to `sorted[i]`: those that are not before the window's start.
unfoldable pub since_loop : Time → PriceTimeline → PriceTimeline → PriceTimeline
since_loop start found [] = found
since_loop start found (v ∷ vs) =
    since_loop start
      (if after v.timestamp start || equal v.timestamp start then found ++ v ∷ [] else found) vs

-- `current.Timestamp.Add(-windowSize)`.
abbrev pub window_start : NumericValue → Duration → Time
window_start current size = add current.timestamp (neg_duration size)

-- The result with the window and the time of the round.
abbrev stamped : AggregationResult → NumericValue → Duration → AggregationResult
stamped r current size = record r {
  window = record empty_window {
    type = sliding_window;
    size = size;
    start = window_start current size;
    end = current.timestamp;
  };
  timestamp = current.timestamp;
}

module _ ⦃f : FloatOps⦄ ⦃s : Sorter⦄ where
  -- The end of a round: it has the data of the window.
  moving_append :
      List AggregationResult
      → PriceTimeline
      → NumericValue
      → String
      → Duration
      → Float64
      → Outcome (List AggregationResult)
  moving_append results [] current agg_type size percentile = ok results
  moving_append results (v ∷ vs) current agg_type size percentile = do
    r ← aggregate (v ∷ vs) agg_type percentile
    ok (results ++ stamped r current size ∷ [])

  -- `earlier` is what stands in front of the index.
  moving_loop :
      List AggregationResult
      → PriceTimeline
      → PriceTimeline
      → String
      → Duration
      → Float64
      → Outcome (List AggregationResult)
  moving_loop results earlier [] agg_type size percentile = ok results
  moving_loop results earlier (current ∷ rest) agg_type size percentile =
      moving_append results (since_loop (window_start current size) [] (earlier ++ current ∷ []))
        current agg_type size percentile
      >>= λ results'. moving_loop results' (earlier ++ current ∷ []) rest agg_type size percentile

  unfoldable pub moving_aggregate :
      PriceTimeline → String → Duration → Float64 → Outcome MovingAggregation
  unfolding moving_loop moving_append since_loop aggregate neg_duration
  moving_aggregate [] agg_type size percentile =
      ok (record { type = agg_type; window = size; results = [] })
  moving_aggregate (v ∷ timeline) agg_type size percentile = do
    r ← moving_loop [] [] (by_timestamp (v ∷ timeline)) agg_type size percentile
    ok (record { type = agg_type; window = size; results = r })

  windowed_append :
      List AggregationResult
      → PriceTimeline
      → Window
      → String
      → Float64
      → Outcome (List AggregationResult)
  windowed_append results [] window agg_type percentile = ok results
  windowed_append results (v ∷ vs) window agg_type percentile = do
    r ← aggregate (v ∷ vs) agg_type percentile
    ok (results ++ record r { window = window; timestamp = window.end } ∷ [])

  windowed_loop :
      List AggregationResult
      → PriceTimeline
      → List Window
      → String
      → Float64
      → Outcome (List AggregationResult)
  windowed_loop results timeline [] agg_type percentile = ok results
  windowed_loop results timeline (window ∷ rest) agg_type percentile =
      windowed_append results (apply_window_to_price_timeline timeline window) window agg_type
        percentile
      >>= λ results'. windowed_loop results' timeline rest agg_type percentile

  unfoldable pub windowed_aggregate :
      PriceTimeline → List Window → String → Float64 → Outcome (List AggregationResult)
  unfolding windowed_loop windowed_append aggregate apply_window_to_price_timeline
  windowed_aggregate timeline windows agg_type percentile =
      windowed_loop [] timeline windows agg_type percentile
