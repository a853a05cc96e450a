-- ===== src/Timeline/Classifier/Reading.antt =====
-- What a JSON object says of its type and of its instant, and that the loops of the classifier
-- find it.
use mathlib.Core.Path.{subst}
use go_temporal_timeline.Prelude.{◌≡◌, refl, sym, ◌∙◌, String, Option, none, some, List, [], ◌∷◌}
use go_temporal_timeline.GoTime.{Time, unix}
use go_temporal_timeline.Prelude.Int.{ℤ}
use go_temporal_timeline.GoFloat.{Float64, FloatOps}
use go_temporal_timeline.GoValue.{
  Value, nil, bool, float, int, int64, text, array, object, Fields, lookup, as_string,
}
use go_temporal_timeline.GoParse.{TimeParser}
use go_temporal_timeline.Timeline.Classifier.{first_string, value_timestamp, first_timestamp}

-- The text of the first of the fields that holds a text, if one does.
pub data FirstText (raw : Fields) : List String → Option String → Type 0 where
  no_text : FirstText raw [] none
  text_here :
      (name : String) (names : List String) (s : String)
      → lookup name raw ≡ some (text s)
      → FirstText raw (name ∷ names) (some s)
  text_later :
      (name : String) (names : List String) (o : Option String)
      → ((s : String) → lookup name raw ≡ some (text s) → ⊥)
      → FirstText raw names o
      → FirstText raw (name ∷ names) o

-- A text that is a time, with or without nanoseconds, or a number of seconds.
pub data IsInstant ⦃p : TimeParser⦄ ⦃f : FloatOps⦄ : Value → Time → Type 0 where
  of_text : (s : String) (u : Time) → p.parse_rfc3339 s ≡ some u → IsInstant (text s) u
  of_nano_text :
      (s : String) (u : Time)
      → p.parse_rfc3339 s ≡ none
      → p.parse_rfc3339_nano s ≡ some u
      → IsInstant (text s) u
  of_float : (x : Float64) → IsInstant (float x) (unix (f.to_int x))
  of_int64 : (n : ℤ) → IsInstant (int64 n) (unix n)

-- The instant of the first of the fields that holds one, if one does.
pub data FirstInstant ⦃p : TimeParser⦄ ⦃f : FloatOps⦄ (raw : Fields)
    : List String → Option Time → Type 0 where
  no_instant : FirstInstant raw [] none
  instant_here :
      (name : String) (names : List String) (v : Value) (u : Time)
      → lookup name raw ≡ some v
      → IsInstant v u
      → FirstInstant raw (name ∷ names) (some u)
  instant_later :
      (name : String) (names : List String) (o : Option Time)
      → ((v : Value) (u : Time) → lookup name raw ≡ some v → IsInstant v u → ⊥)
      → FirstInstant raw names o
      → FirstInstant raw (name ∷ names) o

not_some : {A : Type 0} {x : A} (o : Option A) → o ≡ none → o ≡ some x → ⊥
not_some o h k = cc

some_injective : {A : Type 0} {x y : A} → some x ≡ some y → x ≡ y
some_injective h = cc

pub first_string-FirstText :
    (names : List String) (raw : Fields) → FirstText raw names (first_string names raw)
unfolding first_string
first_string-FirstText [] raw = no_text
first_string-FirstText (name ∷ names) raw =
    go (lookup name raw) refl (first_string-FirstText names raw)
  where
    later :
        (o : Option Value)
        → lookup name raw ≡ o
        → ((s : String) → o ≡ some (text s) → ⊥)
        → FirstText raw names (first_string names raw)
        → FirstText raw (name ∷ names) (first_string names raw)
    later o e h rest = text_later name names (first_string names raw) (λ s k. h s (sym e ∙ k)) rest

    go :
        (o : Option Value)
        → lookup name raw ≡ o
        → FirstText raw names (first_string names raw)
        → FirstText raw (name ∷ names) (elim o [
          | none ↦ first_string names raw
          | some v ↦ elim (as_string v) [ none ↦ first_string names raw | some s ↦ some s ]
        ])
    go none e rest = later none e (λ s k. absurd (cc k)) rest
    go (some (text s)) e rest = text_here name names s e
    go (some nil) e rest = later (some nil) e (λ s k. absurd (cc k)) rest
    go (some (bool b)) e rest = later (some (bool b)) e (λ s k. absurd (cc k)) rest
    go (some (float x)) e rest = later (some (float x)) e (λ s k. absurd (cc k)) rest
    go (some (int i)) e rest = later (some (int i)) e (λ s k. absurd (cc k)) rest
    go (some (int64 i)) e rest = later (some (int64 i)) e (λ s k. absurd (cc k)) rest
    go (some (array vs)) e rest = later (some (array vs)) e (λ s k. absurd (cc k)) rest
    go (some (object fs)) e rest = later (some (object fs)) e (λ s k. absurd (cc k)) rest

module _ ⦃p : TimeParser⦄ ⦃f : FloatOps⦄ where
  value_timestamp-IsInstant : (v : Value) (u : Time) → value_timestamp v ≡ some u → IsInstant v u
  unfolding value_timestamp
  value_timestamp-IsInstant (text s) u h = go (p.parse_rfc3339 s) refl h
    where
      go :
          (o : Option Time)
          → p.parse_rfc3339 s ≡ o
          → elim o [ some t ↦ some t | none ↦ p.parse_rfc3339_nano s ] ≡ some u
          → IsInstant (text s) u
      go (some t) e k = of_text s u (e ∙ k)
      go none e k = of_nano_text s u e k
  value_timestamp-IsInstant (float x) u h =
      subst (IsInstant (float x)) (some_injective h) (of_float x)
  value_timestamp-IsInstant (int64 n) u h =
      subst (IsInstant (int64 n)) (some_injective h) (of_int64 n)
  value_timestamp-IsInstant nil u h = cc
  value_timestamp-IsInstant (bool b) u h = cc
  value_timestamp-IsInstant (int i) u h = cc
  value_timestamp-IsInstant (array vs) u h = cc
  value_timestamp-IsInstant (object fs) u h = cc

  value_timestamp-some : (v : Value) (u : Time) → IsInstant v u → value_timestamp v ≡ some u
  unfolding value_timestamp
  value_timestamp-some _ _ (of_text s u h) = rw (h, value_timestamp) refl
  value_timestamp-some _ _ (of_nano_text s u h k) = rw (h, value_timestamp) k
  value_timestamp-some _ _ (of_float x) = refl
  value_timestamp-some _ _ (of_int64 n) = refl

  pub first_timestamp-FirstInstant :
      (names : List String) (raw : Fields) → FirstInstant raw names (first_timestamp names raw)
  unfolding first_timestamp
  first_timestamp-FirstInstant [] raw = no_instant
  first_timestamp-FirstInstant (name ∷ names) raw =
      go (lookup name raw) refl (first_timestamp-FirstInstant names raw)
    where
      dated :
          (v : Value) (o : Option Time)
          → lookup name raw ≡ some v
          → value_timestamp v ≡ o
          → FirstInstant raw names (first_timestamp names raw)
          → FirstInstant raw
              (name ∷ names)
              (elim o [ none ↦ first_timestamp names raw | some t ↦ some t ])
      dated v (some u) e k rest = instant_here name names v u e (value_timestamp-IsInstant v u k)
      dated v none e k rest =
          instant_later name names (first_timestamp names raw)
            (λ x u h i. not_some (value_timestamp v) k (
              value_timestamp-some v u (subst (λ y. IsInstant y u) (some_injective (sym h ∙ e)) i)))
            rest

      go :
          (o : Option Value)
          → lookup name raw ≡ o
          → FirstInstant raw names (first_timestamp names raw)
          → FirstInstant raw (name ∷ names) (elim o [
            | none ↦ first_timestamp names raw
            | some v ↦ elim (value_timestamp v) [
              | none ↦ first_timestamp names raw
              | some t ↦ some t
            ]
          ])
      go none e rest =
          instant_later name names (first_timestamp names raw)
            (λ v u h i. not_some (lookup name raw) e h) rest
      go (some v) e rest = dated v (value_timestamp v) e refl rest
