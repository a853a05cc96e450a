-- ===== src/Timeline/Classifier/Correct.antt =====
-- What `ClassifyEvent` makes of raw JSON.
use mathlib.Core.Path.{subst}
use go_temporal_timeline.Prelude.{
  ◌≡◌, refl, ap, ◌∙◌, sym, true, false, String, Option, none, some, inl, inr, List, [], ◌∷◌, str_eq,
  eq_iff, Bool-cases, All, if_intro,
}
use go_temporal_timeline.GoTime.{Time}
use go_temporal_timeline.GoFloat.{FloatOps}
use go_temporal_timeline.GoValue.{Fields}
use go_temporal_timeline.GoResult.{Outcome, ok}
use go_temporal_timeline.GoParse.{TimeParser, EventReader}
use go_temporal_timeline.Timeline.Classified.{
  TimelineEvent, get_type, get_timestamp, get_attributes,
}
use go_temporal_timeline.Timeline.Classifier.Reading.{
  FirstText, FirstInstant, first_string-FirstText, first_timestamp-FirstInstant,
}
use go_temporal_timeline.Timeline.Classifier.{
  type_fields, timestamp_fields, first_string, first_timestamp, extract_event_type, parse_timestamp,
  generic_type, parse_generic_event, Registered, find_parser, new_event_classifier, classify_fields,
  classify_event,
}

-- The type of a JSON object: the text of the first field below that holds one, and "unknown" where
-- none does or the text is empty.
pub data IsTypeOf (raw_data : Fields) : String → Type 0 where
  named :
      (s : String)
      → FirstText raw_data
          ("eventType" ∷ "event_type" ∷ "type" ∷ "action" ∷ "event" ∷ "messageType" ∷ [])
          (some s)
      → (s ≡ "" → ⊥)
      → IsTypeOf raw_data s
  named_empty :
      FirstText raw_data
        ("eventType" ∷ "event_type" ∷ "type" ∷ "action" ∷ "event" ∷ "messageType" ∷ [])
        (some "")
      → IsTypeOf raw_data "unknown"
  unnamed :
      FirstText raw_data
        ("eventType" ∷ "event_type" ∷ "type" ∷ "action" ∷ "event" ∷ "messageType" ∷ [])
        none
      → IsTypeOf raw_data "unknown"

generic_type-IsTypeOf :
    (raw_data : Fields) (o : Option String)
    → FirstText raw_data type_fields o
    → IsTypeOf raw_data (generic_type (elim o [ none ↦ "" | some s ↦ s ]))
generic_type-IsTypeOf raw_data none h = unnamed h
generic_type-IsTypeOf raw_data (some s) h = elim (Bool-cases (str_eq s "")) [
  | inl empty ↦
      rw empty (
        named_empty
          (subst (λ x. FirstText raw_data type_fields (some x)) ((eq_iff s "").0 empty) h))
  | inr full ↦ rw full (named s h (λ e. true_not_false (sym ((eq_iff s "").1 e) ∙ full)))
]
  where
    true_not_false : true ≡ false → ⊥
    true_not_false h = cc

module _ (now : Time) ⦃p : TimeParser⦄ ⦃f : FloatOps⦄ where
  -- The instant of a JSON object: the one of the first field below that holds one, or else `now`.
  pub data IsTimeOf (raw_data : Fields) : Time → Type 0 where
    dated :
        (u : Time)
        → FirstInstant raw_data
            ("timestamp" ∷ "ts" ∷ "time" ∷ "eventTime" ∷ "event_time" ∷ [])
            (some u)
        → IsTimeOf raw_data u
    undated :
        FirstInstant raw_data ("timestamp" ∷ "ts" ∷ "time" ∷ "eventTime" ∷ "event_time" ∷ []) none
        → IsTimeOf raw_data now

  parse_timestamp-IsTimeOf :
      (raw_data : Fields) (o : Option Time)
      → FirstInstant raw_data timestamp_fields o
      → IsTimeOf raw_data (elim o [ none ↦ now | some t ↦ t ])
  parse_timestamp-IsTimeOf raw_data none h = undated h
  parse_timestamp-IsTimeOf raw_data (some u) h = dated u h

  -- The event says of itself what the JSON object says.
  pub record Reports (raw_data : Fields) (e : TimelineEvent) : Type 0 where
    pub type_is : IsTypeOf raw_data (get_type e)
    pub timestamp_is : IsTimeOf raw_data (get_timestamp e)
    pub attributes_are : get_attributes e ≡ raw_data

  -- The same by the functions of the classifier.
  record Computes (raw_data : Fields) (e : TimelineEvent) : Type 0 where
    type_is : get_type e ≡ generic_type (extract_event_type raw_data)
    timestamp_is : get_timestamp e ≡ parse_timestamp now raw_data
    attributes_are : get_attributes e ≡ raw_data

  abbrev ParsesAs : Fields → Outcome TimelineEvent → Type 0
  ParsesAs raw_data o = (e : TimelineEvent) × (o ≡ ok e) × Computes raw_data e

  parse_generic_event-ParsesAs :
      (raw_data : Fields) → ParsesAs raw_data (parse_generic_event now raw_data)
  parse_generic_event-ParsesAs raw_data =
      (_, refl, record { type_is = refl; timestamp_is = refl; attributes_are = refl })

  -- The parser reports on the objects whose type is its own.
  abbrev IsParser : Registered → Type 0
  IsParser e =
      (raw_data : Fields)
      → extract_event_type raw_data ≡ e.event_type
      → ParsesAs raw_data (e.parser raw_data)

  lookup-ParsesAs :
      (registry : List Registered) (raw_data : Fields)
      → All IsParser registry
      → ParsesAs raw_data (elim (find_parser (extract_event_type raw_data) registry) [
        | none ↦ parse_generic_event now raw_data
        | some parser ↦ parser raw_data
      ])
  unfolding find_parser
  lookup-ParsesAs [] raw_data h = parse_generic_event-ParsesAs raw_data
  lookup-ParsesAs (e ∷ es) raw_data h =
      elim (Bool-cases (str_eq e.event_type (extract_event_type raw_data))) [
        | inl same ↦
            rw same
              (h.0 raw_data (sym ((eq_iff e.event_type (extract_event_type raw_data)).0 same)))
        | inr other ↦ rw other (lookup-ParsesAs es raw_data h.1)
      ]

  -- With parsers that report on their own types, `ClassifyEvent` returns for every object an event
  -- with all of its fields as attributes, its timestamp, and the type that the object names first,
  -- or `unknown`.
  classify_fields-ParsesAs :
      (registry : List Registered) (raw_data : Fields)
      → All IsParser registry
      → ParsesAs raw_data (classify_fields now registry raw_data)
  unfolding classify_fields
  classify_fields-ParsesAs registry raw_data h =
      if_intro (ParsesAs raw_data) (str_eq (extract_event_type raw_data) "")
        (λ empty. parse_generic_event-ParsesAs raw_data)
        (λ named. lookup-ParsesAs registry raw_data h)

  -- A parser whose event has a type of its own, which is not empty.
  own :
      (e : TimelineEvent) (raw_data : Fields) (type : String)
      → get_type e ≡ generic_type type
      → get_timestamp e ≡ parse_timestamp now raw_data
      → get_attributes e ≡ raw_data
      → extract_event_type raw_data ≡ type
      → ParsesAs raw_data (ok e)
  own e raw_data type h k l x = (
    e,
    refl,
    record { type_is = h ∙ sym (ap generic_type x); timestamp_is = k; attributes_are = l },
  )

  new_event_classifier-IsParser : All IsParser (new_event_classifier now)
  new_event_classifier-IsParser = (
    (λ raw_data. own _ raw_data "userAction" refl refl refl),
    (
      (λ raw_data. own _ raw_data "cdnChange" refl refl refl),
      (
        (λ raw_data. own _ raw_data "playerStateChange" refl refl refl),
        (
          (λ raw_data. own _ raw_data "rebuffer" refl refl refl),
          (
            (λ raw_data. own _ raw_data "seek" refl refl refl),
            ((λ raw_data. own _ raw_data "play" refl refl refl), tt),
          ),
        ),
      ),
    ),
  )

  -- The JSON object is parsed, as an event that reports on it.
  abbrev pub Parses : Fields → Outcome TimelineEvent → Type 0
  Parses raw_data o = (e : TimelineEvent) × (o ≡ ok e) × Reports raw_data e

  Parses-ParsesAs :
      (raw_data : Fields) (o : Outcome TimelineEvent) → ParsesAs raw_data o → Parses raw_data o
  unfolding extract_event_type parse_timestamp
  Parses-ParsesAs raw_data o (e, same, c) = (
    e,
    same,
    record {
      type_is = subst (IsTypeOf raw_data) (sym c.type_is) (
          generic_type-IsTypeOf raw_data (first_string type_fields raw_data)
            (first_string-FirstText type_fields raw_data));
      timestamp_is = subst (IsTimeOf raw_data) (sym c.timestamp_is) (
          parse_timestamp-IsTimeOf raw_data (first_timestamp timestamp_fields raw_data)
            (first_timestamp-FirstInstant timestamp_fields raw_data));
      attributes_are = c.attributes_are;
    },
  )

  -- The classifier of the service never fails on a JSON object. Its event has all the fields of the
  -- object as attributes. Its type is the text of the first of the fields eventType, event_type,
  -- type, action, event and messageType that holds a text, or "unknown" if none does or the text is
  -- empty. Its instant is the one of the first of timestamp, ts, time, eventTime and event_time that
  -- holds an instant, as a text or in seconds, or else the current one.
  pub classify_event-Parses :
      {A : Type 0} ⦃r : EventReader A⦄ (raw : A) (raw_data : Fields)
      → r.parse_json raw ≡ inr raw_data
      → Parses raw_data (classify_event now (new_event_classifier now) raw)
  unfolding classify_event
  classify_event-Parses raw raw_data h =
      rw (h, classify_event)
        (Parses-ParsesAs raw_data (classify_fields now (new_event_classifier now) raw_data) (
          classify_fields-ParsesAs (new_event_classifier now) raw_data
            new_event_classifier-IsParser))
