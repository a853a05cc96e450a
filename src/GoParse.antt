-- ===== src/GoParse.antt =====
-- Parsing by Go's standard library, as a parameter. `parse_duration` is `time.ParseDuration`.
use go_temporal_timeline.Prelude.{◌≡◌, refl, String, Option, ◌⊎◌, inl, inr}
use go_temporal_timeline.GoTime.{Time, Duration}
use go_temporal_timeline.GoValue.{Fields}
use go_temporal_timeline.GoResult.{Error, Outcome, ok, fail}

pub record Parser : Type 0 where
  pub parse_duration : String → Error ⊎ Duration

-- `d, err := time.ParseDuration(s)`.
unfoldable pub parsed_duration : ⦃p : Parser⦄ → String → Outcome Duration
parsed_duration ⦃p⦄ s = elim (p.parse_duration s) [ inl e ↦ fail e | inr d ↦ ok d ]

pub parsed_duration-inl :
    ⦃p : Parser⦄ (s : String) (e : Error) → p.parse_duration s ≡ inl e → parsed_duration s ≡ fail e
unfolding parsed_duration
parsed_duration-inl s e h = rw (h, parsed_duration) refl

pub parsed_duration-inr :
    ⦃p : Parser⦄ (s : String) (d : Duration) → p.parse_duration s ≡ inr d → parsed_duration s ≡ ok d
unfolding parsed_duration
parsed_duration-inr s d h = rw (h, parsed_duration) refl

-- `time.Parse` with the layouts `RFC3339` and `RFC3339Nano`, `none` for an error.
pub record TimeParser : Type 0 where
  pub parse_rfc3339 : String → Option Time
  pub parse_rfc3339_nano : String → Option Time

-- How raw events are read: `parse_json` is `json.Unmarshal` into a map.
pub record EventReader (A : Type 0) : Type 0 where
  pub parse_json : A → Error ⊎ Fields
