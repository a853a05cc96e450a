-- ===== src/Temporal/Query/Operators/NoTruth.antt =====
-- No operation of a query results in a `bool`.
use go_temporal_timeline.Prelude.{
  ◌≡◌, refl, ap, Bool, true, false, not, String, none, some, List, str_eq, if◌then◌else◌,
}
use go_temporal_timeline.GoTime.{Duration}
use go_temporal_timeline.GoSort.{Sorter}
use go_temporal_timeline.GoFloat.{FloatOps}
use go_temporal_timeline.GoResult.{Error, Outcome, ok, fail, panic, ◌>>=◌}
use go_temporal_timeline.GoParse.{Parser}
use go_temporal_timeline.Timeline.Types.{EventTimeline, PriceTimeline}
use go_temporal_timeline.Temporal.Types.{
  OperationHead, QueryOperation, plain, nested, QueryValue, truth, Entry,
}
use go_temporal_timeline.Prelude.{Option, [], ◌∷◌}
use go_temporal_timeline.Prelude.Int.{pos, ltb_ℤ}
use go_temporal_timeline.GoValue.{lookup}
use go_temporal_timeline.GoResult.{errorf, wrap_error}
use go_temporal_timeline.GoParse.{parsed_duration}
use go_temporal_timeline.Timeline.Events.{has_existed_within}
use go_temporal_timeline.Timeline.Durations.{
  longest_consecutive_true_duration, duration_in_cur_state,
}
use go_temporal_timeline.Timeline.Combine.{timeline_not}
use go_temporal_timeline.Timeline.Fintech.Trend.{macd}
use go_temporal_timeline.Temporal.Types.{
  find, metrics, bools, number, numerics, as_states, as_bools,
}
use go_temporal_timeline.Temporal.Query.Params.{duration_param, filter_events_by_type}
use go_temporal_timeline.Temporal.Query.Operators.{
  required_string, source_timeline, parsed_minimum, returning, windowed_case, macd_case,
  moving_case, existed_within_case, longest_case, price_case, flat_case, cur_state_case, not_case,
  execute_operation,
}

-- The value is a `bool`.
abbrev pub is_truth : QueryValue → Bool
is_truth (truth b) = true
is_truth _ = false

abbrev no_truth : Outcome QueryValue → Bool
no_truth (ok v) = not (is_truth v)
no_truth (fail e) = true
no_truth panic = true

-- The outcome holds no `bool`.
pub record HasNoTruth (o : Outcome QueryValue) : Type 0 where
  pub holds : no_truth o ≡ true

HasNoTruth-ok : {v : QueryValue} → is_truth v ≡ false → HasNoTruth (ok v)
HasNoTruth-ok h = record { holds = ap not h }

HasNoTruth-fail : (e : Error) → HasNoTruth (fail e)
HasNoTruth-fail e = record { holds = refl }

HasNoTruth->>= :
    {A : Type 0} (o : Outcome A) (k : A → Outcome QueryValue)
    → ((a : A) → HasNoTruth (k a))
    → HasNoTruth (o >>= k)
HasNoTruth->>= (ok a) k h = h a
HasNoTruth->>= (fail e) k h = record { holds = refl }
HasNoTruth->>= panic k h = record { holds = refl }

HasNoTruth-if :
    (b : Bool) {o o' : Outcome QueryValue}
    → HasNoTruth o
    → HasNoTruth o'
    → HasNoTruth (if b then o else o')
HasNoTruth-if true h k = h
HasNoTruth-if false h k = k

-- A bind whose last step returns a value.
returning-HasNoTruth :
    {A : Type 0} (o : Outcome A) (k : A → QueryValue)
    → ((a : A) → is_truth (k a) ≡ false)
    → HasNoTruth (returning o k)
unfolding returning
returning-HasNoTruth o k h = HasNoTruth->>= o (λ a. ok (k a)) (λ a. HasNoTruth-ok (h a))

HasNoTruth-option :
    {A : Type 0} (x : Option A) (e : Error) (k : A → QueryValue)
    → ((a : A) → is_truth (k a) ≡ false)
    → HasNoTruth (elim x [ none ↦ fail e | some a ↦ ok (k a) ])
HasNoTruth-option none e k h = HasNoTruth-fail e
HasNoTruth-option (some a) e k h = HasNoTruth-ok (h a)

module _ ⦃p : Parser⦄ ⦃f : FloatOps⦄ ⦃s : Sorter⦄ where
  windowed_case-HasNoTruth :
      (h : OperationHead) (default : String) {k : Duration → Outcome QueryValue}
      → ((w : Duration) → HasNoTruth (k w))
      → HasNoTruth (windowed_case h default k)
  unfolding windowed_case
  windowed_case-HasNoTruth h default {k} g = HasNoTruth->>= _ k g

  moving_case-HasNoTruth :
      (prices : PriceTimeline) (h : OperationHead) (agg_type : String)
      → HasNoTruth (moving_case prices h agg_type)
  unfolding moving_case
  moving_case-HasNoTruth prices h agg_type =
      windowed_case-HasNoTruth h _ (λ w. returning-HasNoTruth _ _ (λ r. refl))

  macd_case-HasNoTruth :
      (prices : PriceTimeline) (h : OperationHead) → HasNoTruth (macd_case prices h)
  unfolding macd_case
  macd_case-HasNoTruth prices h =
      HasNoTruth->>= (duration_param h "fast_period" "12m" "invalid fast period: %w") _ (λ x.
        HasNoTruth->>= (duration_param h "slow_period" "26m" "invalid slow period: %w") _ (λ y.
          HasNoTruth->>= (duration_param h "signal_period" "9m" "invalid signal period: %w") _
            (λ z. HasNoTruth-ok {v = metrics (macd prices x y z)} refl)))

  existed_within_case-HasNoTruth :
      (events : EventTimeline) (h : OperationHead) → HasNoTruth (existed_within_case events h)
  unfolding existed_within_case
  existed_within_case-HasNoTruth events h =
      HasNoTruth->>=
        (required_string "HasExistedWithin operation requires 'window' parameter"
          "window parameter must be a string" (lookup "window" h.params))
        _
        (λ x.
          HasNoTruth->>= (wrap_error "invalid window duration: %w" [] (parsed_duration x)) _ (λ y.
            HasNoTruth-ok
              {v = bools (has_existed_within (filter_events_by_type events h.source) h.equals y)}
              refl))

  longest_case-HasNoTruth :
      (h : OperationHead) (results : List Entry) → HasNoTruth (longest_case h results)
  unfolding longest_case
  longest_case-HasNoTruth h results =
      HasNoTruth->>=
        (required_string
          "LongestConsecutiveTrueDuration operation requires 'sourceOperationId' parameter"
          "sourceOperationId parameter must be a string" (lookup "sourceOperationId" h.params))
        _
        (λ x. HasNoTruth->>= (source_timeline x (find x results)) _ (λ y.
          HasNoTruth->>= (parsed_minimum (lookup "duration" h.params)) _ (λ z.
            HasNoTruth-ok
              {v = number
                (longest_consecutive_true_duration y (if ltb_ℤ (pos 0) z then z ∷ [] else []))}
              refl)))

  price_case-HasNoTruth :
      (prices : PriceTimeline) (h : OperationHead) → HasNoTruth (price_case prices h)
  unfolding price_case
  price_case-HasNoTruth prices h =
      HasNoTruth-if (str_eq h.op "TWAP") (windowed_case-HasNoTruth h _ (λ w. HasNoTruth-ok refl)) (
        HasNoTruth-if (str_eq h.op "VWAP") (windowed_case-HasNoTruth h _ (λ w. HasNoTruth-ok refl))
          (HasNoTruth-if (str_eq h.op "BollingerBands")
            (windowed_case-HasNoTruth h _ (λ w. returning-HasNoTruth _ _ (λ r. refl)))
            (HasNoTruth-if (str_eq h.op "RSI")
              (windowed_case-HasNoTruth h _ (λ w. HasNoTruth-ok refl))
              (HasNoTruth-if (str_eq h.op "MACD") (macd_case-HasNoTruth prices h) (
                HasNoTruth-if (str_eq h.op "VaR")
                  (windowed_case-HasNoTruth h _ (λ w. returning-HasNoTruth _ _ (λ r. refl)))
                  (HasNoTruth-if (str_eq h.op "Drawdown") (HasNoTruth-ok refl) (
                    HasNoTruth-if (str_eq h.op "SharpeRatio")
                      (windowed_case-HasNoTruth h _ (λ w. returning-HasNoTruth _ _ (λ r. refl)))
                      (HasNoTruth-if (str_eq h.op "TransactionVelocity")
                        (windowed_case-HasNoTruth h _ (λ w. HasNoTruth-ok refl))
                        (HasNoTruth-if (str_eq h.op "MovingAverage")
                          (moving_case-HasNoTruth prices h _)
                          (HasNoTruth-if (str_eq h.op "MovingSum")
                            (moving_case-HasNoTruth prices h _)
                            (HasNoTruth-if (str_eq h.op "MovingMax")
                              (moving_case-HasNoTruth prices h _)
                              (HasNoTruth-if (str_eq h.op "MovingMin")
                                (moving_case-HasNoTruth prices h _)
                                (HasNoTruth-if (str_eq h.op "Percentile")
                                  (returning-HasNoTruth _ _ (λ r. refl))
                                  (HasNoTruth-fail _))))))))))))))

  flat_case-HasNoTruth :
      (events : EventTimeline) (h : OperationHead) (results : List Entry)
      → HasNoTruth (flat_case events h results)
  unfolding flat_case
  flat_case-HasNoTruth events h results =
      HasNoTruth-if (str_eq h.op "LatestEventToState") (HasNoTruth-ok refl) (
        HasNoTruth-if (str_eq h.op "HasExisted") (HasNoTruth-ok refl) (
          HasNoTruth-if (str_eq h.op "HasExistedWithin") (existed_within_case-HasNoTruth events h) (
            HasNoTruth-if (str_eq h.op "DurationWhere") (HasNoTruth-ok refl) (
              HasNoTruth-if (str_eq h.op "AND") (HasNoTruth-ok refl) (
                HasNoTruth-if (str_eq h.op "OR") (HasNoTruth-ok refl) (
                  HasNoTruth-if (str_eq h.op "LongestConsecutiveTrueDuration")
                    (longest_case-HasNoTruth h results) (price_case-HasNoTruth _ h)))))))

  cur_state_case-HasNoTruth : (o : Outcome QueryValue) → HasNoTruth (cur_state_case o)
  unfolding cur_state_case
  cur_state_case-HasNoTruth o = HasNoTruth->>= o _ (λ v.
      HasNoTruth-option (as_states v)
        (errorf "DurationInCurState operation requires StateTimeline input" [])
        (λ t. numerics (duration_in_cur_state t)) (λ t. refl))

  not_case-HasNoTruth : (o : Outcome QueryValue) → HasNoTruth (not_case o)
  unfolding not_case
  not_case-HasNoTruth o = HasNoTruth->>= o _ (λ v.
      HasNoTruth-option (as_bools v) (errorf "Not operation requires 'of' parameter" [])
        (λ t. bools (timeline_not t)) (λ t. refl))

  -- Whatever an operation is, and whatever it is applied to, its result is no `bool`.
  pub execute_operation-HasNoTruth :
      (events : EventTimeline) (op : QueryOperation) (results : List Entry)
      → HasNoTruth (execute_operation events op results)
  unfolding execute_operation
  execute_operation-HasNoTruth events (plain h) results =
      HasNoTruth-if (str_eq h.op "DurationInCurState") (HasNoTruth-fail _) (
        HasNoTruth-if (str_eq h.op "Not") (HasNoTruth-fail _)
          (flat_case-HasNoTruth events h results))
  execute_operation-HasNoTruth events (nested h o) results =
      HasNoTruth-if (str_eq h.op "DurationInCurState") (cur_state_case-HasNoTruth _) (
        HasNoTruth-if (str_eq h.op "Not") (not_case-HasNoTruth _)
          (flat_case-HasNoTruth events h results))
