-- ===== src/GoValue.antt =====
-- Go's `interface{}` as the program meets it in decoded JSON and in parameters, and maps from
-- strings to it. A map is an association list: a key that stands twice has its first value.
use go_temporal_timeline.Prelude.{Bool, String, Option, none, some, str_eq, if◌then◌else◌}
use go_temporal_timeline.Prelude.Int.{ℤ}
use go_temporal_timeline.GoFloat.{Float64}

mutual
  pub data Value : Type 0 where
    nil : Value
    bool : Bool → Value
    float : Float64 → Value
    int : ℤ → Value
    int64 : ℤ → Value
    text : String → Value
    array : Values → Value
    object : Fields → Value

  pub data Values : Type 0 where
    no_values : Values
    item : Value → Values → Values

  pub data Fields : Type 0 where
    no_fields : Fields
    field : String → Value → Fields → Fields

-- `v, exists := m[key]`.
unfoldable pub lookup : String → Fields → Option Value
lookup k no_fields = none
lookup k (field j v rest) = if str_eq j k then some v else lookup k rest

-- `str, ok := v.(string)`.
abbrev pub as_string : Value → Option String
as_string (text s) = some s
as_string _ = none

-- `f, ok := v.(float64)`.
abbrev pub as_float : Value → Option Float64
as_float (float x) = some x
as_float _ = none
