-- ===== src/Temporal/Query/Operators.antt =====
-- The cases of `executeOperation` of pkg/temporal/activities.go.
pub mod NoTruth
use go_temporal_timeline.Prelude.{
  Bool, true, false, String, Option, none, some, List, [], ◌∷◌, str_eq, if◌then◌else◌,
}
use go_temporal_timeline.Prelude.Int.{ℤ, pos, ltb_ℤ}
use go_temporal_timeline.GoTime.{Duration}
use go_temporal_timeline.GoSort.{Sorter}
use go_temporal_timeline.GoFloat.{Float64, FloatOps, zero_float}
use go_temporal_timeline.GoValue.{Value, Fields, lookup, as_string}
use go_temporal_timeline.GoResult.{Error, errorf, Outcome, ok, fail, panic, ◌>>=◌, wrap_error}
use go_temporal_timeline.GoParse.{Parser, parsed_duration}
use go_temporal_timeline.Timeline.Types.{EventTimeline, BoolTimeline, PriceTimeline}
use go_temporal_timeline.Timeline.Combine.{timeline_and, timeline_or, timeline_not}
use go_temporal_timeline.Timeline.Events.{latest_event_to_state, has_existed, has_existed_within}
use go_temporal_timeline.Timeline.Durations.{
  duration_where, duration_in_cur_state, longest_consecutive_true_duration,
}
use go_temporal_timeline.Timeline.Aggregations.{aggregate}
use go_temporal_timeline.Timeline.Aggregations.Moving.{moving_aggregate}
use go_temporal_timeline.Timeline.Fintech.Weighted.{twap, vwap}
use go_temporal_timeline.Timeline.Fintech.Bands.{bollinger_bands, sharpe_ratio}
use go_temporal_timeline.Timeline.Fintech.Trend.{rsi, macd}
use go_temporal_timeline.Timeline.Fintech.Risk.{var, drawdown}
use go_temporal_timeline.Timeline.Fintech.Flow.{transaction_velocity}
use go_temporal_timeline.Temporal.Types.{
  OperationHead, QueryOperation, plain, nested, QueryValue, number, states, bools, numerics,
  metrics, risks, moving, aggregated, Entry, find, as_bools, as_states,
}
use go_temporal_timeline.Temporal.Query.Params.{
  filter_events_by_type, bool_timelines, condition_timelines, duration_param, get_float_param,
  convert_to_price_timeline,
}

-- A parameter that must be there and be a string.
required_string : String → String → Option Value → Outcome String
required_string missing wrong none = fail (errorf missing [])
required_string missing wrong (some v) = elim (as_string v) [
  | none ↦ fail (errorf wrong [])
  | some s ↦ ok s
]

-- `minDuration`, where the parameter `duration` is a string, and 0 where it is not.
parsed_minimum : ⦃p : Parser⦄ → Option Value → Outcome Duration
parsed_minimum none = ok (pos 0)
parsed_minimum (some v) = elim (as_string v) [
  | none ↦ ok (pos 0)
  | some s ↦ wrap_error "invalid duration parameter: %w" [] (parsed_duration s)
]

-- The value that a named operation left, which must be a boolean timeline.
source_timeline : String → Option QueryValue → Outcome BoolTimeline
source_timeline id none = fail (errorf "source operation '%s' did not produce a result" (id ∷ []))
source_timeline id (some v) = elim (as_bools v) [
  | none ↦ fail (errorf "source operation '%s' did not produce a BoolTimeline" (id ∷ []))
  | some b ↦ ok b
]

-- The result of an operator as the value of the operation.
unfoldable pub returning : {A : Type 0} → Outcome A → (A → QueryValue) → Outcome QueryValue
returning o k = o >>= λ a. ok (k a)

module _ ⦃p : Parser⦄ ⦃f : FloatOps⦄ ⦃s : Sorter⦄ where
  unfoldable pub existed_within_case : EventTimeline → OperationHead → Outcome QueryValue
  unfolding required_string lookup
  existed_within_case events h = do
    text ←
        required_string "HasExistedWithin operation requires 'window' parameter"
          "window parameter must be a string" (lookup "window" h.params)
    window ← wrap_error "invalid window duration: %w" [] (parsed_duration text)
    ok (bools (has_existed_within (filter_events_by_type events h.source) h.equals window))

  -- `combinedTimeline` of DurationWhere, for the ids of `All` and those of `Any`.
  unfoldable pub combined_timeline : List Entry → List String → List String → BoolTimeline
  combined_timeline results (id ∷ ids) any =
      timeline_and (condition_timelines results [] (id ∷ ids))
  combined_timeline results [] (id ∷ ids) = timeline_or (condition_timelines results [] (id ∷ ids))
  combined_timeline results [] [] = []

  -- The operators that take a window with a default from the parameters.
  unfoldable pub windowed_case :
      OperationHead → String → (Duration → Outcome QueryValue) → Outcome QueryValue
  windowed_case h default k = duration_param h "window" default "invalid window duration: %w" >>= k

  unfoldable pub macd_case : PriceTimeline → OperationHead → Outcome QueryValue
  macd_case prices h = do
    fast ← duration_param h "fast_period" "12m" "invalid fast period: %w"
    slow ← duration_param h "slow_period" "26m" "invalid slow period: %w"
    signal ← duration_param h "signal_period" "9m" "invalid signal period: %w"
    ok (metrics (macd prices fast slow signal))

  unfoldable pub moving_case : PriceTimeline → OperationHead → String → Outcome QueryValue
  moving_case prices h agg_type =
      windowed_case h "5m" (λ w. returning (moving_aggregate prices agg_type w zero_float) moving)

  unfoldable pub longest_case : OperationHead → List Entry → Outcome QueryValue
  unfolding required_string source_timeline parsed_minimum lookup find
  longest_case h results = do
    id ←
        required_string
          "LongestConsecutiveTrueDuration operation requires 'sourceOperationId' parameter"
          "sourceOperationId parameter must be a string" (lookup "sourceOperationId" h.params)
    timeline ← source_timeline id (find id results)
    minimum ← parsed_minimum (lookup "duration" h.params)
    ok (
        number (
          longest_consecutive_true_duration timeline
            (if ltb_ℤ (pos 0) minimum then minimum ∷ [] else [])))

  -- The financial and the aggregation operators, on the events as prices.
  unfoldable pub price_case : PriceTimeline → OperationHead → Outcome QueryValue
  price_case prices h =
      if str_eq h.op "TWAP"
      then windowed_case h "5m" (λ w. ok (metrics (twap prices w)))
      else if str_eq h.op "VWAP"
      then windowed_case h "5m" (λ w. ok (metrics (vwap prices w)))
      else if str_eq h.op "BollingerBands"
      then windowed_case h "20m" (λ w.
        returning (bollinger_bands prices w (get_float_param h.params "multiplier" (f.literal 2 1)))
          metrics)
      else if str_eq h.op "RSI"
      then windowed_case h "14m" (λ w. ok (metrics (rsi prices w)))
      else if str_eq h.op "MACD"
      then macd_case prices h
      else if str_eq h.op "VaR"
      then windowed_case h "30d" (λ w.
        returning (var prices w (get_float_param h.params "confidence" (f.literal 95 1))) risks)
      else if str_eq h.op "Drawdown"
      then ok (metrics (drawdown prices))
      else if str_eq h.op "SharpeRatio"
      then windowed_case h "30d" (λ w.
        returning
          (sharpe_ratio prices w (get_float_param h.params "risk_free_rate" (f.literal 2 100)))
          metrics)
      else if str_eq h.op "TransactionVelocity"
      then windowed_case h "1h" (λ w. ok (metrics (transaction_velocity prices w)))
      else if str_eq h.op "MovingAverage"
      then moving_case prices h "avg"
      else if str_eq h.op "MovingSum"
      then moving_case prices h "sum"
      else if str_eq h.op "MovingMax"
      then moving_case prices h "max"
      else if str_eq h.op "MovingMin"
      then moving_case prices h "min"
      else if str_eq h.op "Percentile"
      then returning
          (aggregate prices "percentile" (get_float_param h.params "percentile" (f.literal 50 1)))
          aggregated
      else fail (errorf "unsupported operation: %s" (h.op ∷ []))

  -- The cases that do not look at `Of`.
  unfoldable pub flat_case : EventTimeline → OperationHead → List Entry → Outcome QueryValue
  unfolding combined_timeline
  flat_case events h results =
      if str_eq h.op "LatestEventToState"
      then ok (states (latest_event_to_state (filter_events_by_type events h.source) h.equals))
      else if str_eq h.op "HasExisted"
      then ok (bools (has_existed (filter_events_by_type events h.source) h.equals))
      else if str_eq h.op "HasExistedWithin"
      then existed_within_case events h
      else if str_eq h.op "DurationWhere"
      then ok (
          number (
            f.seconds (duration_where (combined_timeline results h.condition_all h.condition_any))))
      else if str_eq h.op "AND"
      then ok (bools (timeline_and (bool_timelines results [] h.condition_all)))
      else if str_eq h.op "OR"
      then ok (bools (timeline_or (bool_timelines results [] h.condition_any)))
      else if str_eq h.op "LongestConsecutiveTrueDuration"
      then longest_case h results
      else price_case (convert_to_price_timeline events h) h

  -- `DurationInCurState` on the outcome of the nested operation.
  unfoldable pub cur_state_case : Outcome QueryValue → Outcome QueryValue
  cur_state_case o = o >>= λ v. elim (as_states v) [
    | none ↦ fail (errorf "DurationInCurState operation requires StateTimeline input" [])
    | some t ↦ ok (numerics (duration_in_cur_state t))
  ]

  -- `Not` on the outcome of the nested operation.
  unfoldable pub not_case : Outcome QueryValue → Outcome QueryValue
  not_case o = o >>= λ v. elim (as_bools v) [
    | none ↦ fail (errorf "Not operation requires 'of' parameter" [])
    | some t ↦ ok (bools (timeline_not t))
  ]

  unfoldable pub execute_operation :
      EventTimeline → QueryOperation → List Entry → Outcome QueryValue
  unfolding flat_case
  execute_operation events (plain h) results =
      if str_eq h.op "DurationInCurState"
      then fail (errorf "DurationInCurState operation requires 'of' parameter" [])
      else if str_eq h.op "Not"
      then fail (errorf "Not operation requires 'of' parameter" [])
      else flat_case events h results
  execute_operation events (nested h o) results =
      let inner = execute_operation events o results in
      if str_eq h.op "DurationInCurState"
      then cur_state_case inner
      else if str_eq h.op "Not"
      then not_case inner
      else flat_case events h results
