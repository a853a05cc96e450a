-- ===== src/Temporal/Storage/Mock.antt =====
-- pkg/temporal/mock_storage.go: storage in memory, and an index in memory. The locks make each
-- method one step.
pub mod Refines
use go_temporal_timeline.Prelude.{
  ℕ, ◌+◌, Bool, true, false, not, ◌&&◌, ◌||◌, String, Option, none, some, inl, inr, List, [], ◌∷◌,
  ◌++◌, length, take, ltb, str_eq, bool_eq, if◌then◌else◌,
}
use go_temporal_timeline.Prelude.Int.{ℤ, pos, negsuc, leb_ℤ}
use go_temporal_timeline.GoTime.{Time, before, after, equal}
use go_temporal_timeline.GoFloat.{Float64, FloatOps}
use go_temporal_timeline.GoValue.{
  Value, nil, bool, float, int, int64, text, array, object, Fields, no_fields, field, lookup,
}
use go_temporal_timeline.GoResult.{Outcome, ok, fail, panic, ◌>>=◌}
use go_temporal_timeline.GoParse.{TimeParser, EventReader}
use go_temporal_timeline.Timeline.Classifier.{timestamp_fields, first_timestamp}
use go_temporal_timeline.Temporal.Types.{TimeRange}
use go_temporal_timeline.Temporal.Storage.{StorageService, IndexService}

-- An entry of the map `events`.
pub record Stored (A : Type 0) : Type 0 where
  pub id : String
  pub events : List A

module _ {A : Type 0} where
  -- `m.events[timelineID]`, which is nil for a missing key.
  unfoldable pub stored_events : List (Stored A) → String → List A
  stored_events [] id = []
  stored_events (e ∷ es) id = if str_eq e.id id then e.events else stored_events es id

  unfoldable pub append_events : List (Stored A) → String → List A → List (Stored A)
  append_events [] id events = record { id = id; events = events } ∷ []
  append_events (e ∷ es) id events =
      let rest = append_events es id events in
      if str_eq e.id id then record e { events = e.events ++ events } ∷ es else e ∷ rest

  unfoldable pub get_event_count : List (Stored A) → String → ℕ
  unfolding stored_events
  get_event_count s id = length (stored_events s id)

  module _ ⦃t : TimeParser⦄ ⦃f : FloatOps⦄ ⦃r : EventReader A⦄ where
    -- The timestamp of a raw event, `none` for an error.
    unfoldable pub extract_timestamp_from_event : A → Option Time
    extract_timestamp_from_event raw = elim (r.parse_json raw) [
      | inl e ↦ none
      | inr raw_data ↦ first_timestamp timestamp_fields raw_data
    ]

    -- The event lies in the range, with both ends.
    unfoldable pub in_range : TimeRange → A → Bool
    unfolding extract_timestamp_from_event
    in_range range raw = elim (extract_timestamp_from_event raw) [
      | none ↦ false
      | some u ↦
          (equal u range.start || after u range.start) && (equal u range.end || before u range.end)
    ]

    range_loop : TimeRange → List A → List A → List A
    range_loop range filtered [] = filtered
    range_loop range filtered (raw ∷ rest) =
        range_loop range (if in_range range raw then filtered ++ raw ∷ [] else filtered) rest

    unfoldable pub load_events : List (Stored A) → String → Option TimeRange → List A
    unfolding stored_events range_loop in_range
    load_events s id none = stored_events s id
    load_events s id (some range) = range_loop range [] (stored_events s id)

    unfoldable pub read_events : List (Stored A) → String → Option TimeRange → List String → List A
    unfolding load_events
    read_events s id range [] = load_events s id range
    read_events s id range (p ∷ pointers) = take (length (p ∷ pointers)) (load_events s id range)

    abbrev pub mock_storage_service : StorageService A
    mock_storage_service = record {
      State = List (Stored A);
      append_events = λ s id events. ok (append_events s id events);
      load_events = λ s id range. ok (load_events s id range);
      read_events = λ s id range pointers. ok (read_events s id range pointers);
    }

-- Go's `==` on two values of `interface{}`. Two maps, or two slices, cannot be compared: a panic.
unfoldable pub interfaces_equal : ⦃f : FloatOps⦄ → Value → Value → Outcome Bool
interfaces_equal nil nil = ok true
interfaces_equal (bool a) (bool b) = ok (bool_eq a b)
interfaces_equal ⦃f⦄ (float x) (float y) = ok (f.le x y && f.le y x)
interfaces_equal (int i) (int j) = ok (leb_ℤ i j && leb_ℤ j i)
interfaces_equal (int64 i) (int64 j) = ok (leb_ℤ i j && leb_ℤ j i)
interfaces_equal (text s) (text t) = ok (str_eq s t)
interfaces_equal (array xs) (array ys) = panic
interfaces_equal (object xs) (object ys) = panic
interfaces_equal _ _ = ok false

-- The loop over the filters, in the order in which the range clause meets them.
unfoldable pub filters_match : ⦃f : FloatOps⦄ → Fields → Fields → Outcome Bool
unfolding lookup interfaces_equal
filters_match no_fields event = ok true
filters_match (field key expected rest) event =
    let later = filters_match rest event in
    elim (lookup key event) [
      | none ↦ ok false
      | some actual ↦ interfaces_equal actual expected >>= λ same. if same then later else ok false
    ]

module _ {A : Type 0} ⦃t : TimeParser⦄ ⦃f : FloatOps⦄ ⦃r : EventReader A⦄ where
  outside : Option TimeRange → A → Bool
  outside none raw = false
  outside (some range) raw = elim (extract_timestamp_from_event raw) [
    | none ↦ true
    | some u ↦ before u range.start || after u range.end
  ]

  unfoldable pub event_matches_filters : A → Fields → Option TimeRange → Outcome Bool
  unfolding filters_match outside extract_timestamp_from_event
  event_matches_filters raw filters range = elim (r.parse_json raw) [
    | inl e ↦ ok false
    | inr event ↦ if outside range raw then ok false else filters_match filters event
  ]

  -- `event_pointer i` is the text `event_<i>`.
  module _ (event_pointer : ℕ → String) where
    unfoldable pub query_loop :
        ℕ → List String → List A → Fields → Option TimeRange → Outcome (List String)
    unfolding event_matches_filters
    query_loop i pointers [] filters range = ok pointers
    query_loop i pointers (raw ∷ rest) filters range =
        event_matches_filters raw filters range >>= λ matches.
        query_loop (i + 1) (if matches then pointers ++ event_pointer i ∷ [] else pointers) rest
          filters range

    abbrev pub mock_index_service : IndexService A
    mock_index_service = record {
      Index = List A;
      index_events = λ indexed events. inr (indexed ++ events);
      query_events = λ indexed filters range. query_loop 0 [] indexed filters range;
    }
