-- ===== src/Examples/Hcl.antt =====
-- A query in HCL.
use go_temporal_timeline.Prelude.{
  ◌≡◌, refl, ℕ, true, String, none, some, [], ◌∷◌, ◌==◌, if◌then◌else◌,
}
use go_temporal_timeline.Prelude.Int.{ℤ, pos, negsuc}
use go_temporal_timeline.Temporal.Workflows.{QueryRequest}
use go_temporal_timeline.GoTime.{Time}
use go_temporal_timeline.GoValue.{float, text, no_fields, field}
use go_temporal_timeline.GoResult.{ok, fail, errorf}
use go_temporal_timeline.Temporal.Types.{OperationHead}
use go_temporal_timeline.Hcl.{
  NumberReader, HclReplayRequest, convert_hcl_query, convert_replay, convert_replay_from_file,
  replay_of, empty_query,
}
use go_temporal_timeline.Hcl.RoundTrip.{
  NumberWriter, is_writable_map, HclShape, of_simple, operation_of, write_query,
  convert_hcl_query-write,
}
use go_temporal_timeline.Examples.Classifier.{hour_parser}

abbrev clock_text : Time → String
clock_text u = if u == 100 then "01:00" else "02:00"

abbrev duration_head : OperationHead
duration_head = record {
  id = "in_state";
  op = "DurationInCurState";
  source = "";
  equals = "";
  window = "";
  condition_all = [];
  condition_any = [];
  params = field "unit" (text "s") (field "scale" (float (record { bits = 5 })) no_fields);
}

-- A stand-in for the rounding: it reads the mantissa.
abbrev bits_of : ℤ → ℕ
bits_of (pos m) = m
bits_of (negsuc m) = 0

abbrev pub toy_reader : NumberReader
toy_reader = record { nearest = λ x. record { bits = bits_of x.mantissa } }

abbrev toy_writer : NumberWriter ⦃n = toy_reader⦄
toy_writer = record {
  exact = λ x. record { mantissa = pos x.bits; exponent = pos 0 };
  is_finite = λ x. true;
  nearest-exact = λ x h. refl;
}

abbrev shape : HclShape
shape = of_simple duration_head "state" "LatestEventToState" "playerStateChange"

abbrev written : QueryRequest
written = record {
  timeline_id = "ann";
  operations = operation_of shape ∷ [];
  filters = no_fields;
  time_range = some (record { start = 100; end = 200 });
  processing_mode = "";
}

convert_hcl_query-write_example :
    convert_hcl_query ⦃t = hour_parser⦄ ⦃n = toy_reader⦄
      (write_query clock_text ⦃n = toy_reader⦄ ⦃w = toy_writer⦄ written (shape ∷ []))
    ≡ ok written
unfolding is_writable_map
convert_hcl_query-write_example =
    convert_hcl_query-write clock_text ⦃n = toy_reader⦄ ⦃w = toy_writer⦄ ⦃t = hour_parser⦄ written
      (shape ∷ []) refl refl refl refl (refl, refl)

abbrev no_query : HclReplayRequest
no_query = record { timeline_id = "ann"; query = none; chunk_size = none }

-- The two readers of a replay differ on one without a query.
replay-refused :
    convert_replay ⦃t = hour_parser⦄ ⦃n = toy_reader⦄ no_query
    ≡ fail (errorf "replay request must include a query block" [])
unfolding convert_replay
replay-refused = refl

replay-accepted :
    convert_replay_from_file ⦃t = hour_parser⦄ ⦃n = toy_reader⦄ no_query
    ≡ ok (replay_of no_query empty_query)
unfolding convert_replay_from_file
replay-accepted = refl
