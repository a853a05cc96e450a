-- ===== src/Examples/Aggregations.antt =====
-- `MovingAggregate`.
use go_temporal_timeline.Prelude.{◌≡◌, refl, [], arith}
use go_temporal_timeline.Prelude.Int.{pos}
use go_temporal_timeline.GoFloat.{zero_float}
use go_temporal_timeline.GoResult.{ok}
use go_temporal_timeline.GoSort.Insertion.{insertion_sorter}
use go_temporal_timeline.Timeline.Aggregations.{MovingAggregation, by_timestamp}
use go_temporal_timeline.Timeline.Aggregations.Moving.{moving_aggregate}
use go_temporal_timeline.Timeline.Aggregations.Moving.Reports.{IsMoving, moving_aggregate-IsMoving}
use go_temporal_timeline.Examples.Samples.{toy_floats, prices}

moving_aggregate-IsMoving_example :
    (r : MovingAggregation) × (moving_aggregate ⦃f = toy_floats⦄ prices "sum" (pos 10) zero_float
      ≡ ok r)
    × IsMoving ⦃f = toy_floats⦄ "sum" zero_float 10 [] (by_timestamp prices) r.results
moving_aggregate-IsMoving_example =
    moving_aggregate-IsMoving ⦃f = toy_floats⦄ prices "sum" 10 zero_float
      (record { not_percentile = refl; not_median = refl }) (omega arith)
