-- ===== src/Temporal/Workflows/Modes.antt =====
-- The modes on events that fit in one chunk.
use mathlib.Core.Path.{subst}
use go_temporal_timeline.Prelude.{
  ◌≡◌, refl, ap, sym, ◌∙◌, ℕ, suc, ◌≤◌, ◌<◌, arith, Bool, true, false, String, Option, none, some,
  inl, inr, if◌then◌else◌, ◌⊎◌, List, [], ◌∷◌, length, last_from,
}
use go_temporal_timeline.GoSort.{Sorter}
use go_temporal_timeline.GoFloat.{Float64, FloatOps}
use go_temporal_timeline.GoResult.{
  Error, Outcome, ok, fail, panic, ◌>>=◌, wrap_error, settled, map_outcome, ok-injective,
}
use go_temporal_timeline.GoParse.{Parser}
use go_temporal_timeline.Timeline.Types.{Event, EventTimeline}
use go_temporal_timeline.Temporal.Types.{
  QueryOperation, head_of, QueryResult, QueryValue, nothing, whole, number, truth, states, bools,
  numerics, metrics, risks, moving, aggregated, decoded,
}
use go_temporal_timeline.Prelude.Int.{ℤ}
use go_temporal_timeline.GoValue.{Value}
use go_temporal_timeline.Timeline.Types.{StateTimeline, BoolTimeline, NumericTimeline}
use go_temporal_timeline.Timeline.Aggregations.{AggregationResult, MovingAggregation}
use go_temporal_timeline.Timeline.Fintech.Types.{FinancialTimeline, RiskMetric}
use go_temporal_timeline.Temporal.Service.{TemporalService, receive, received}
use go_temporal_timeline.Temporal.Query.Process.{operations_loop, process_query, determine_unit}
use go_temporal_timeline.Temporal.Chunks.Assemble.{
  classify_loop, process_events, process_events_concurrently,
}
use go_temporal_timeline.Temporal.Chunks.Assemble.Alone.{
  is_combined, returned_value, alone, process_events_concurrently-alone,
}
use go_temporal_timeline.Temporal.Micro.{Naming}
use go_temporal_timeline.Temporal.Micro.Orchestrator.{Surroundings}
use go_temporal_timeline.Temporal.Workflows.{
  WorkflowResult, from_query, from_chunks, value_of, unit_of, run_mode, returned_chunks,
  receive_query, concurrent, single,
}

-- The unit of a value.
pub data IsUnit : QueryValue → String → Type 0 where
  of_number : {x : Float64} → IsUnit (number x) "seconds"
  of_whole : {n : ℤ} → IsUnit (whole n) "seconds"
  of_states : {s : StateTimeline} → IsUnit (states s) "intervals"
  of_bools : {b : BoolTimeline} → IsUnit (bools b) "boolean_intervals"
  of_nothing : IsUnit nothing ""
  of_truth : {b : Bool} → IsUnit (truth b) ""
  of_numerics : {x : NumericTimeline} → IsUnit (numerics x) ""
  of_metrics : {x : FinancialTimeline} → IsUnit (metrics x) ""
  of_risks : {x : List RiskMetric} → IsUnit (risks x) ""
  of_moving : {x : MovingAggregation} → IsUnit (moving x) ""
  of_aggregated : {x : AggregationResult} → IsUnit (aggregated x) ""
  of_decoded : {x : Value} → IsUnit (decoded x) ""

determine_unit-IsUnit : (x : QueryValue) → IsUnit x (determine_unit x)
determine_unit-IsUnit nothing = of_nothing
determine_unit-IsUnit (whole n) = of_whole
determine_unit-IsUnit (number x) = of_number
determine_unit-IsUnit (truth b) = of_truth
determine_unit-IsUnit (states s) = of_states
determine_unit-IsUnit (bools b) = of_bools
determine_unit-IsUnit (numerics x) = of_numerics
determine_unit-IsUnit (metrics x) = of_metrics
determine_unit-IsUnit (risks x) = of_risks
determine_unit-IsUnit (moving x) = of_moving
determine_unit-IsUnit (aggregated x) = of_aggregated
determine_unit-IsUnit (decoded x) = of_decoded

-- The outcome of a query and those of two modes. Where the query returns a value and JSON can
-- encode it, both return what arrives of it, the first with the unit of what arrives, and the second
-- with the unit of the value itself. Otherwise both fail.
pub data Agree ⦃t : TemporalService⦄ (query : Outcome QueryResult)
    : Option (Outcome WorkflowResult) → Option (Outcome WorkflowResult) → Type 0 where
  both_return :
      {a b : WorkflowResult} (r : QueryResult)
      → query ≡ ok r
      → receive r.result ≡ ok (value_of a)
      → receive r.result ≡ ok (value_of b)
      → IsUnit (value_of a) (unit_of a)
      → IsUnit r.result (unit_of b)
      → Agree query (some (ok a)) (some (ok b))
  both_fail :
      {e e' : Error}
      → ((r : QueryResult) (x : QueryValue) → query ≡ ok r → receive r.result ≡ ok x → ⊥)
      → Agree query (some (fail e)) (some (fail e'))

-- The unit is the one of the value.
abbrev HasUnit : Outcome QueryResult → Type 0
HasUnit (ok r) = r.unit ≡ determine_unit r.result
HasUnit (fail e) = e ≡ e
HasUnit panic = true ≡ true

>>=-HasUnit :
    {B : Type 0} (o : Outcome B) (k : B → Outcome QueryResult)
    → ((b : B) → HasUnit (k b))
    → HasUnit (o >>= k)
>>=-HasUnit (ok b) k h = h b
>>=-HasUnit (fail e) k h = refl
>>=-HasUnit panic k h = refl

ok_not_fail : {B : Type 0} {x : B} {e : Error} → ok x ≡ fail e → ⊥
ok_not_fail h = cc

never_panics : (x : Error ⊎ Value) → received x ≡ panic → ⊥
never_panics (inl e) h = cc
never_panics (inr v) h = cc

Agree-alone :
    ⦃t : TemporalService⦄ (o : Outcome QueryResult) (k : ℕ)
    → HasUnit o
    → Agree o
        (some (
          map_outcome from_chunks (
            wrap_error "failed to process events concurrently: %w" []
              (alone (returned_value o >>= receive) k))))
        (some (
          map_outcome from_query (
            wrap_error "failed to process events: %w" []
              (settled (wrap_error "failed to process query: %w" [] o) >>= receive_query))))
Agree-alone ⦃t⦄ (ok r) k h = go (receive r.result) refl
  where
    go :
        (o : Outcome QueryValue)
        → receive r.result ≡ o
        → Agree
            (ok r)
            (some (
              map_outcome from_chunks
                (wrap_error "failed to process events concurrently: %w" [] (alone o k))))
            (some (
              map_outcome from_query (
                wrap_error "failed to process events: %w" []
                  (o >>= λ x. ok (record r { result = x })))))
    go (ok x) e =
        both_return r refl e e (determine_unit-IsUnit x)
          (subst (λ u. IsUnit r.result u) (sym h) (determine_unit-IsUnit r.result))
    go (fail x) e =
        both_fail
          (λ q y h k. ok_not_fail (sym k ∙ ap (λ z. receive z.result) (sym (ok-injective h)) ∙ e))
    go panic e = absurd (never_panics (t.to_json r.result) e)
Agree-alone (fail e) k h = both_fail (λ r x i j. absurd (cc i))
Agree-alone panic k h = both_fail (λ r x i j. absurd (cc i))

module _ {A : Type 0} (classify : A → Error ⊎ Event) ⦃p : Parser⦄ ⦃f : FloatOps⦄ ⦃s : Sorter⦄
    ⦃m : Naming⦄ ⦃t : TemporalService⦄ (w : Surroundings A) where
  process_query-HasUnit :
      (events : EventTimeline) (op : QueryOperation) (ops : List QueryOperation)
      → HasUnit (process_query events (op ∷ ops))
  unfolding process_query
  process_query-HasUnit events op ops =
      >>=-HasUnit (operations_loop events [] (op ∷ ops)) _ (λ results. refl)

  -- On 1 to 10000 events, where the queue of the chunks is polled and results of the last operation
  -- are neither added up nor or-ed, the concurrent mode and the single mode both return what JSON
  -- makes of the result of the query on all events, or, if it fails or cannot be encoded, both fail.
  -- The unit of the single mode is the one of that result, but the unit of the concurrent mode is the
  -- one of the decoded value: "intervals" and "boolean_intervals" are lost there.
  pub run_mode-Agree :
      (events : List A) (op : QueryOperation) (ops : List QueryOperation)
      → t.polls "timeline-processing" ≡ true
      → 0 < length events
      → length events ≤ 10000
      → is_combined (head_of (last_from op ops)).op ≡ false
      → Agree
          (process_query (classify_loop classify [] events) (op ∷ ops))
          (run_mode classify w concurrent (suc (length events)) events (op ∷ ops))
          (run_mode classify w single (suc (length events)) events (op ∷ ops))
  unfolding run_mode process_events
  run_mode-Agree (e ∷ es) op ops polled h k plain_op =
      let raw_events = e ∷ es in
      let query = process_query (classify_loop classify [] raw_events) (op ∷ ops) in
      subst
        (λ o.
          Agree query (returned_chunks o)
            (run_mode classify w single (suc (length raw_events)) raw_events (op ∷ ops)))
        (sym (
          ap
            (λ polls.
              if polls
              then process_events_concurrently classify (suc (length raw_events)) raw_events
                  (op ∷ ops)
              else none)
            polled
          ∙ process_events_concurrently-alone classify (length es) raw_events op ops h k plain_op))
        (Agree-alone query (length (op ∷ ops))
          (process_query-HasUnit (classify_loop classify [] raw_events) op ops))
  run_mode-Agree [] op ops polled h k plain_op = absurd (omega (arith, h))
