-- ===== src/Examples/Service.antt =====
-- A stand-in for the Temporal service: timelines are encoded as empty lists.
use go_temporal_timeline.Prelude.{◌≡◌, refl, Bool, true, ◌⊎◌, inr, str_eq}
use go_temporal_timeline.GoValue.{Value, nil, bool, float, array, object, no_values, no_fields}
use go_temporal_timeline.GoResult.{Error}
use go_temporal_timeline.Temporal.Types.{
  QueryValue, nothing, whole, number, truth, states, bools, numerics, metrics, risks, moving,
  aggregated, decoded,
}
use go_temporal_timeline.Temporal.Service.{TemporalService}
use go_temporal_timeline.Examples.Samples.{toy_floats}

abbrev encode : QueryValue → Value
encode nothing = nil
encode (whole n) = float (toy_floats.of_int n)
encode (number x) = float x
encode (truth b) = bool b
encode (states s) = array no_values
encode (bools b) = array no_values
encode (numerics x) = array no_values
encode (metrics x) = array no_values
encode (risks x) = array no_values
encode (moving x) = object no_fields
encode (aggregated x) = object no_fields
encode (decoded v) = object no_fields

encode_truth : (v : QueryValue) (b : Bool) → encode v ≡ bool b → v ≡ truth b
encode_truth (truth c) b h = cc
encode_truth nothing b h = cc
encode_truth (whole n) b h = cc
encode_truth (number x) b h = cc
encode_truth (states s) b h = cc
encode_truth (bools s) b h = cc
encode_truth (numerics x) b h = cc
encode_truth (metrics x) b h = cc
encode_truth (risks x) b h = cc
encode_truth (moving x) b h = cc
encode_truth (aggregated x) b h = cc
encode_truth (decoded v) b h = cc

abbrev encoded : QueryValue → Error ⊎ Value
encoded v = inr (encode v)

inr_injective : {x y : Value} → ◌≡◌ {A = Error ⊎ Value} (inr x) (inr y) → x ≡ y
inr_injective h = cc

pub encoded_truth : (v : QueryValue) (b : Bool) → encoded v ≡ inr (bool b) → v ≡ truth b
encoded_truth v b h = encode_truth v b (inr_injective h)

abbrev pub toy_service : TemporalService
toy_service = record {
  to_json = encoded;
  is_finite = λ x. true;
  polls = λ queue. true;
  truth_of = encoded_truth;
  number_of = λ x h. refl;
}

-- One whose workers poll only the queue of the server.
abbrev pub server_service : TemporalService
server_service = record toy_service { polls = λ queue. str_eq queue "timeline-task-queue" }
