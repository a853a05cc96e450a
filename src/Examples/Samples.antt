-- ===== src/Examples/Samples.antt =====
-- The data of the tests.
use go_temporal_timeline.Prelude.{ℕ, ◌+◌, ◌-◌, ◌*◌, ◌/◌, true, false, not, String, [], ◌∷◌, ltb}
use go_temporal_timeline.Prelude.Int.{ℤ, pos, negsuc}
use go_temporal_timeline.GoFloat.{FloatOps, zero_float}
use go_temporal_timeline.GoTime.{Time}
use go_temporal_timeline.GoValue.{Fields}
use go_temporal_timeline.Timeline.Types.{
  Event, EventTimeline, BoolInterval, BoolTimeline, NumericValue, PriceTimeline,
}

abbrev pub on : Time → Time → BoolInterval
on start end = record { value = true; start = start; end = end }

abbrev pub off : Time → Time → BoolInterval
off start end = record { value = false; start = start; end = end }

abbrev pub event : Time → String → Event
event t v = record {
  timestamp = t;
  type = "playerStateChange";
  value = v;
  attrs = Fields.no_fields;
}

-- Two intervals overlap, two touch, and the list is not in order.
abbrev pub scattered : BoolTimeline
scattered = on 10 14 ∷ on 2 5 ∷ on 4 8 ∷ on 14 15 ∷ []

abbrev pub morning : BoolTimeline
morning = on 1 6 ∷ on 9 12 ∷ []

abbrev pub evening : BoolTimeline
evening = on 4 10 ∷ []

abbrev pub session : EventTimeline
session = event 5 "play" ∷ event 1 "init" ∷ event 9 "pause" ∷ event 7 "play" ∷ event 12 "play" ∷ []

-- Arithmetic on the patterns as if they were numbers: a stand-in for that of float64.
abbrev pub toy_floats : FloatOps
toy_floats = record {
  add = λ x y. record { bits = x.bits + y.bits };
  sub = λ x y. record { bits = x.bits - y.bits };
  mul = λ x y. record { bits = x.bits * y.bits };
  div = λ x y. record { bits = x.bits / y.bits };
  neg = λ x. x;
  lt = λ x y. ltb x.bits y.bits;
  le = λ x y. not (ltb y.bits x.bits);
  sqrt = λ x. x;
  sort_floats = λ xs. xs;
  literal = λ m n. record { bits = m / n };
  of_int = λ i. record { bits = natural i };
  to_int = λ x. pos x.bits;
  seconds = λ d. record { bits = natural d / 1000000000 };
  hours = λ d. record { bits = natural d / 3600000000000 };
}
  where
    natural : ℤ → ℕ
    natural (pos n) = n
    natural (negsuc n) = 0

abbrev pub value_at : Time → ℕ → NumericValue
value_at t n = record {
  timestamp = t;
  value = record { bits = n };
  volume = record { bits = 1 };
  symbol = "";
  price = zero_float;
}

abbrev pub prices : PriceTimeline
prices = value_at 30 7 ∷ value_at 10 3 ∷ value_at 20 5 ∷ []
