-- ===== src/Temporal/Service.antt =====
-- The Temporal service between workflows: the data converter, which encodes a result as JSON where
-- it is returned and decodes it into an `interface{}` where it is waited for, and the task queues
-- that some worker polls. Both are parameters.
use go_temporal_timeline.Prelude.{◌≡◌, Bool, true, String, ◌⊎◌, inl, inr}
use go_temporal_timeline.GoFloat.{Float64}
use go_temporal_timeline.GoValue.{Value, nil, bool, float}
use go_temporal_timeline.GoResult.{Error, Outcome, ok, fail}
use go_temporal_timeline.Temporal.Types.{QueryValue, nothing, number, truth, decoded}

-- `to_json v` is what `json.Marshal` and then `json.Unmarshal` make of `v`. Only `true` and `false`
-- become a `bool`, and a float that is a number, and no infinity, is read back as it was.
pub record TemporalService : Type 0 where
  pub to_json : QueryValue → Error ⊎ Value
  pub is_finite : Float64 → Bool
  pub polls : String → Bool
  pub truth_of : (v : QueryValue) (b : Bool) → to_json v ≡ inr (bool b) → v ≡ truth b
  pub number_of : (x : Float64) → is_finite x ≡ true → to_json (number x) ≡ inr (float x)

-- The decoded `interface{}` as the assertions of the program see it.
abbrev pub as_result : Value → QueryValue
as_result nil = nothing
as_result (bool b) = truth b
as_result (float x) = number x
as_result v = decoded v

abbrev pub received : Error ⊎ Value → Outcome QueryValue
received (inl e) = fail e
received (inr v) = ok (as_result v)

-- A result after its way from an activity or a workflow to the one that waits for it.
abbrev pub receive : ⦃t : TemporalService⦄ → QueryValue → Outcome QueryValue
receive ⦃t⦄ v = received (t.to_json v)
