-- ===== src/Temporal/Storage/Mock/Refines.antt =====
-- The storage in memory keeps the promises of a storage.
use go_temporal_timeline.Prelude.{
  ◌≤◌, ◌<◌, ◌⊎◌, ◌&&◌, ◌||◌, Bool, Option, if_intro, ◌≡◌, refl, ap, sym, ◌∙◌, true, false, String,
  none, some, List, [], ◌∷◌, ◌++◌, append_assoc, append-nil, arith, str_eq, eq_iff, if◌then◌else◌,
  Bool-cases, inl, inr,
}
use go_temporal_timeline.GoFloat.{FloatOps}
use go_temporal_timeline.GoResult.{ok-injective}
use go_temporal_timeline.GoParse.{TimeParser, EventReader}
use go_temporal_timeline.Temporal.Types.{TimeRange}
use go_temporal_timeline.Temporal.Storage.{IsLawful}
use go_temporal_timeline.Temporal.Storage.Mock.{
  Stored, stored_events, append_events, in_range, range_loop, load_events, mock_storage_service,
  extract_timestamp_from_event,
}
use go_temporal_timeline.GoTime.{Time, before, after, equal}
use go_temporal_timeline.GoValue.{Fields}
use go_temporal_timeline.GoResult.{Error}
use go_temporal_timeline.Timeline.Classifier.{timestamp_fields, first_timestamp}
use go_temporal_timeline.Timeline.Classifier.Reading.{FirstInstant, first_timestamp-FirstInstant}

str_eq_common :
    (a b j : String) → str_eq a b ≡ false → str_eq a j ≡ true → str_eq b j ≡ true → true ≡ false
str_eq_common a b j h k l = sym ((eq_iff a b).1 ((eq_iff a j).0 k ∙ sym ((eq_iff b j).0 l))) ∙ h

module _ {A : Type 0} where
  stored-append_events :
      (s : List (Stored A)) (id j : String) (events : List A)
      → stored_events (append_events s id events) j
        ≡ (if str_eq id j then stored_events s j ++ events else stored_events s j)
  unfolding stored_events append_events
  stored-append_events [] id j events = ground arith
  stored-append_events (e ∷ es) id j events = elim (Bool-cases (str_eq e.id id)) [
    | inl same ↦ rw same (ground (arith, ap (λ k. str_eq k j) ((eq_iff e.id id).0 same)))
    | inr other ↦
        rw other
          (ground (arith, stored-append_events es id j events, str_eq_common e.id id j other))
  ]

  module _ ⦃t : TimeParser⦄ ⦃f : FloatOps⦄ ⦃r : EventReader A⦄ where
    -- The storage in memory is a storage: what a timeline holds is all that was appended to it, in
    -- order, and other timelines are left alone; loading without a range returns it.
    pub mock_storage_service-IsLawful : IsLawful {A = A} mock_storage_service
    unfolding load_events
    mock_storage_service-IsLawful = record {
      view = stored_events;
      view-append = λ s s' id j events e.
          ap (λ n. stored_events n j) (sym (ok-injective e)) ∙ stored-append_events s id j events;
      load-view = λ s id. refl;
    }

    -- The raw event holds an instant.
    pub data IsDated (raw : A) : Time → Type 0 where
      dated :
          (raw_data : Fields) (u : Time)
          → r.parse_json raw ≡ inr raw_data
          → FirstInstant raw_data
              ("timestamp" ∷ "ts" ∷ "time" ∷ "eventTime" ∷ "event_time" ∷ [])
              (some u)
          → IsDated raw u

    -- The second list has the events of the first one whose instants lie in the range, in order.
    pub data IsSelection (range : TimeRange) : List A → List A → Type 0 where
      empty : IsSelection range [] []
      kept :
          {rest ys : List A} (raw : A) (u : Time)
          → IsDated raw u
          → range.start ≤ u
          → u ≤ range.end
          → IsSelection range rest ys
          → IsSelection range (raw ∷ rest) (raw ∷ ys)
      unread :
          {rest ys : List A} (raw : A) (e : Error)
          → r.parse_json raw ≡ inl e
          → IsSelection range rest ys
          → IsSelection range (raw ∷ rest) ys
      undated :
          {rest ys : List A} (raw : A) (raw_data : Fields)
          → r.parse_json raw ≡ inr raw_data
          → FirstInstant raw_data
              ("timestamp" ∷ "ts" ∷ "time" ∷ "eventTime" ∷ "event_time" ∷ [])
              none
          → IsSelection range rest ys
          → IsSelection range (raw ∷ rest) ys
      outside :
          {rest ys : List A} (raw : A) (u : Time)
          → IsDated raw u
          → (u < range.start) ⊎ (range.end < u)
          → IsSelection range rest ys
          → IsSelection range (raw ∷ rest) ys

    -- The events that are kept.
    abbrev within : TimeRange → List A → List A
    within range [] = []
    within range (raw ∷ rest) =
        if in_range range raw then raw ∷ within range rest else within range rest

    range_loop-within :
        (range : TimeRange) (filtered events : List A)
        → range_loop range filtered events ≡ filtered ++ within range events
    unfolding range_loop
    range_loop-within range filtered [] = sym (append-nil filtered)
    range_loop-within range filtered (raw ∷ rest) = elim (Bool-cases (in_range range raw)) [
      | inl inside ↦ rw inside (
          range_loop-within range (filtered ++ raw ∷ []) rest
          ∙ append_assoc filtered (raw ∷ []) (within range rest))
      | inr out ↦ rw out (range_loop-within range filtered rest)
    ]

    within-append :
        (range : TimeRange) (xs ys : List A)
        → within range (xs ++ ys) ≡ within range xs ++ within range ys
    within-append range [] ys = refl
    within-append range (x ∷ xs) ys = elim (Bool-cases (in_range range x)) [
      | inl inside ↦ rw inside (ap (◌∷◌ x) (within-append range xs ys))
      | inr out ↦ rw out (within-append range xs ys)
    ]

    select :
        (range : TimeRange) (raw : A) (rest ys : List A) (u : Time)
        → IsDated raw u
        → IsSelection range rest ys
        → IsSelection range (raw ∷ rest) (
            if (equal u range.start || after u range.start)
              && (equal u range.end || before u range.end)
            then raw ∷ ys
            else ys)
    select range raw rest ys u d h =
        if_intro (IsSelection range (raw ∷ rest))
          ((equal u range.start || after u range.start)
            && (equal u range.end || before u range.end))
          (λ e. kept raw u d (ground (arith, e)) (ground (arith, e)) h)
          (λ e. outside raw u d (ground (arith, e)) h)

    within-IsSelection :
        (range : TimeRange) (events : List A) → IsSelection range events (within range events)
    unfolding in_range extract_timestamp_from_event
    within-IsSelection range [] = empty
    within-IsSelection range (raw ∷ rest) =
        go (r.parse_json raw) refl (within-IsSelection range rest)
      where
        timed :
            (raw_data : Fields) (o : Option Time)
            → r.parse_json raw ≡ inr raw_data
            → FirstInstant raw_data timestamp_fields o
            → IsSelection range rest (within range rest)
            → IsSelection range (raw ∷ rest) (
                if elim o as (λ x. Bool) [
                  | none ↦ false
                  | some u ↦
                      (equal u range.start || after u range.start)
                      && (equal u range.end || before u range.end)
                ]
                then raw ∷ within range rest
                else within range rest)
        timed raw_data none e i h = undated raw raw_data e i h
        timed raw_data (some u) e i h =
            select range raw rest (within range rest) u (dated raw_data u e i) h

        go :
            (x : Error ⊎ Fields)
            → r.parse_json raw ≡ x
            → IsSelection range rest (within range rest)
            → IsSelection range (raw ∷ rest) (
                if elim (elim x as (λ y. Option Time) [
                  | inl e ↦ none
                  | inr raw_data ↦ first_timestamp timestamp_fields raw_data
                ])
                  as (λ y. Bool) [
                    | none ↦ false
                    | some u ↦
                        (equal u range.start || after u range.start)
                        && (equal u range.end || before u range.end)
                  ]
                then raw ∷ within range rest
                else within range rest)
        go (inl e) k h = unread raw e k h
        go (inr raw_data) k h =
            timed raw_data (first_timestamp timestamp_fields raw_data) k
              (first_timestamp-FirstInstant timestamp_fields raw_data) h

    -- Events that are appended to a timeline are loaded again, after those that were there before;
    -- with a range, exactly those that are JSON objects with an instant and whose instant lies in it,
    -- both ends included, in their order.
    pub load-append_events :
        (s : List (Stored A)) (id : String) (range : TimeRange) (events : List A)
        → (load_events (append_events s id events) id none ≡ load_events s id none ++ events)
          × (kept_events : List A) × (load_events (append_events s id events) id (some range)
              ≡ load_events s id (some range) ++ kept_events)
          × IsSelection range events kept_events
    unfolding load_events
    load-append_events s id range events =
        let here : stored_events (append_events s id events) id ≡ stored_events s id ++ events =
          stored-append_events s id id events
          ∙ ap (λ b. if b then stored_events s id ++ events else stored_events s id)
              ((eq_iff id id).1 refl) in
        (
          here,
          within range events,
          range_loop-within range [] (stored_events (append_events s id events) id)
              ∙ ap (within range) here
              ∙ within-append range (stored_events s id) events
              ∙ ap (λ l. l ++ within range events)
                  (sym (range_loop-within range [] (stored_events s id))),
          within-IsSelection range events,
        )
