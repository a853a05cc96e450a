-- ===== src/Temporal/Fraud/Workflows.antt =====
-- pkg/temporal/fraud_workflow.go: `CreditCardFraudWorkflow` and
-- `ProcessMultiCustomerFraudWorkflow`. The outcome of a child workflow is a parameter.
use go_temporal_timeline.Prelude.{
  ℕ, zero, Bool, String, List, [], ◌∷◌, ◌++◌, length, ltb, if◌then◌else◌,
}
use go_temporal_timeline.Prelude.Int.{ℤ, pos}
use go_temporal_timeline.GoTime.{Time, Duration, sub}
use go_temporal_timeline.GoSort.{Sorter}
use go_temporal_timeline.GoFloat.{FloatOps}
use go_temporal_timeline.GoResult.{errorf, Outcome, ok, fail, panic}
use go_temporal_timeline.Timeline.Types.{EventTimeline, BoolTimeline}
use go_temporal_timeline.Temporal.Micro.{Clock}
use go_temporal_timeline.Temporal.Fraud.{Surveyor, detect_credit_card_fraud}

-- 30 minutes in nanoseconds.
abbrev pub default_fraud_detection_window : Duration
default_fraud_detection_window = pos 1_800_000_000_000

pub record CreditCardFraudRequest : Type 0 where
  pub customer_id : String
  pub events : EventTimeline
  pub window : Duration
  pub start_time : Time
  pub end_time : Time
  pub batch_size : ℤ

pub record CreditCardFraudResult : Type 0 where
  pub customer_id : String
  pub fraud_detected : Bool
  pub fraud_intervals : BoolTimeline
  pub processed_events : ℕ
  pub start_time : Time
  pub end_time : Time
  pub execution_time : Duration

-- The window of the request, or the default for 0.
abbrev pub fraud_window : Duration → Duration
fraud_window (pos zero) = default_fraud_detection_window
fraud_window d = d

module _ ⦃w : Surveyor⦄ ⦃f : FloatOps⦄ ⦃s : Sorter⦄ where
  abbrev pub fraud_result : CreditCardFraudRequest → Clock → BoolTimeline → CreditCardFraudResult
  fraud_result request clock intervals = record {
    customer_id = request.customer_id;
    fraud_detected = ltb 0 (length intervals);
    fraud_intervals = intervals;
    processed_events = length request.events;
    start_time = request.start_time;
    end_time = request.end_time;
    execution_time = sub clock.completed clock.started;
  }

  abbrev pub credit_card_fraud_workflow :
      CreditCardFraudRequest → Clock → Outcome CreditCardFraudResult
  credit_card_fraud_workflow request clock =
      if ltb 0 (length request.events)
      then ok (
          fraud_result request clock
            (detect_credit_card_fraud request.events (fraud_window request.window)))
      else fail (errorf "no events provided for customer %s" (request.customer_id ∷ []))

-- An iteration of the loop that collects: a child that fails is only logged.
abbrev pub collect_result :
    List CreditCardFraudResult → Outcome CreditCardFraudResult → List CreditCardFraudResult
collect_result results (ok r) = results ++ r ∷ []
collect_result results (fail e) = results
collect_result results panic = results

module _ (child : CreditCardFraudRequest → Outcome CreditCardFraudResult) where
  results_loop :
      List CreditCardFraudResult → List CreditCardFraudRequest → List CreditCardFraudResult
  results_loop results [] = results
  results_loop results (request ∷ rest) = results_loop (collect_result results (child request)) rest

  unfoldable pub process_multi_customer_fraud_workflow :
      List CreditCardFraudRequest → List CreditCardFraudResult
  unfolding results_loop
  process_multi_customer_fraud_workflow requests = results_loop [] requests
