-- ===== src/Examples/Fraud.antt =====
-- Card transactions in a shop, on a web site and in an app.
use go_temporal_timeline.Prelude.{◌≡◌, refl, true, String, [], ◌∷◌, str_eq, if◌then◌else◌}
use go_temporal_timeline.Prelude.Int.{pos}
use go_temporal_timeline.GoFloat.{zero_float}
use go_temporal_timeline.GoSort.Insertion.{insertion_sort, insertion_sorter}
use go_temporal_timeline.Timeline.Types.{EventTimeline}
use go_temporal_timeline.Temporal.Micro.{Clock}
use go_temporal_timeline.Temporal.Fraud.{
  FraudLocation, Surveyor, default_fraud_detection_config, detect_credit_card_fraud_with_config,
}
use go_temporal_timeline.Temporal.Fraud.Safety.{
  IsDoublyCovered, detect_credit_card_fraud_with_config-IsDoublyCovered,
}
use go_temporal_timeline.Temporal.Fraud.Workflows.{
  CreditCardFraudRequest, credit_card_fraud_workflow, process_multi_customer_fraud_workflow,
}
use go_temporal_timeline.Examples.Samples.{toy_floats, event}

abbrev place : String → FraudLocation
place value = record {
  city = value;
  state = "";
  lat = zero_float;
  lng = zero_float;
  type = if str_eq value "shop" then "in-store" else "online";
}

-- Every text is a location, and keys are met in the order in which they came.
abbrev surveyor : Surveyor
surveyor = record {
  unmarshal_location = place;
  is_location = λ value. true;
  to_lower = λ value. value;
  order = λ keys. keys;
  sin = λ x. x;
  cos = λ x. x;
  atan2 = λ x y. x;
  pi = zero_float;
}

abbrev three_payments : EventTimeline
three_payments = event 100 "shop" ∷ event 103 "web" ∷ event 105 "app" ∷ []

detect_credit_card_fraud_with_config-IsDoublyCovered_example :
    IsDoublyCovered ⦃w = surveyor⦄ ⦃f = toy_floats⦄ three_payments (pos 60) 110
unfolding detect_credit_card_fraud_with_config insertion_sort
detect_credit_card_fraud_with_config-IsDoublyCovered_example =
    detect_credit_card_fraud_with_config-IsDoublyCovered ⦃w = surveyor⦄ ⦃f = toy_floats⦄
      three_payments (pos 60) (default_fraud_detection_config ⦃f = toy_floats⦄) 110
      (λ keys distinct. distinct) refl

abbrev no_payments : CreditCardFraudRequest
no_payments = record {
  customer_id = "ann";
  events = [];
  window = pos 0;
  start_time = 1;
  end_time = 2;
  batch_size = pos 0;
}

abbrev one_day : Clock
one_day = record { started = 1; completed = 2 }

-- A customer without transactions is left out of the results.
without-payments :
    process_multi_customer_fraud_workflow
      (λ request. credit_card_fraud_workflow ⦃w = surveyor⦄ ⦃f = toy_floats⦄ request one_day)
      (no_payments ∷ [])
    ≡ []
unfolding process_multi_customer_fraud_workflow
without-payments = refl
