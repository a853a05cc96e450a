-- ===== src/Temporal/Fraud.antt =====
-- pkg/temporal/fraud_detection.go and pkg/temporal/fraud_workflow.go: the detection of impossible
-- travel between card transactions, and its workflows. The functions of the package `math`, the
-- reading of a location from JSON, lower case, and the order in which the keys of a map are met are
-- parameters.
pub mod Locations
pub mod Overlap
pub mod Safety
pub mod Workflows
use Prim.Native.String.{◌++◌ as append_text}
use go_temporal_timeline.Prelude.{
  ℕ, Bool, true, false, not, ◌&&◌, String, Option, none, some, List, [], ◌∷◌, ◌++◌, map, length,
  ltb, any, str_eq, if◌then◌else◌,
}
use go_temporal_timeline.Prelude.Int.{ℤ, pos, ltb_ℤ, leb_ℤ}
use go_temporal_timeline.GoTime.{Time, Duration, sub, neg_duration}
use go_temporal_timeline.GoSort.{Sorter}
use go_temporal_timeline.GoFloat.{Float64, FloatOps, zero_float}
use go_temporal_timeline.GoResult.{Error, errorf, Outcome, ok, fail, panic}
use go_temporal_timeline.Timeline.Types.{Event, EventTimeline, BoolTimeline}
use go_temporal_timeline.Timeline.Events.{has_existed_within}
use go_temporal_timeline.Timeline.Combine.{timeline_and, timeline_or}

pub record FraudDetectionConfig : Type 0 where
  pub min_distance_km : Float64
  pub walking_speed_km_h : Float64
  pub driving_speed_km_h : Float64
  pub flying_speed_km_h : Float64
  pub speed_buffer : Float64
  pub min_overlaps : ℤ

abbrev pub default_fraud_detection_config : ⦃f : FloatOps⦄ → FraudDetectionConfig
default_fraud_detection_config ⦃f⦄ = record {
  min_distance_km = f.literal 500 1;
  walking_speed_km_h = f.literal 5 1;
  driving_speed_km_h = f.literal 160 1;
  flying_speed_km_h = f.literal 950 1;
  speed_buffer = f.literal 11 10;
  min_overlaps = pos 2;
}

pub record FraudLocation : Type 0 where
  pub city : String
  pub state : String
  pub lat : Float64
  pub lng : Float64
  pub type : String

-- What a location comes from. `unmarshal_location` is `json.Unmarshal` into a `FraudLocation`: what
-- it leaves there, and whether there is no error. `order` is the order in which keys are met.
pub record Surveyor : Type 0 where
  pub unmarshal_location : String → FraudLocation
  pub is_location : String → Bool
  pub to_lower : String → String
  pub order : List String → List String
  pub sin : Float64 → Float64
  pub cos : Float64 → Float64
  pub atan2 : Float64 → Float64 → Float64
  pub pi : Float64

module _ ⦃w : Surveyor⦄ where
  abbrev pub normalize_fraud_location : String → FraudLocation
  normalize_fraud_location value =
      if w.is_location value
      then w.unmarshal_location value
      else record (w.unmarshal_location value) { city = value; type = "in-store" }

  -- `locationKey`.
  abbrev pub location_key : Event → String
  location_key event =
      let loc = normalize_fraud_location event.value in
      w.to_lower
        (append_text loc.city (append_text "," (append_text loc.state (append_text "," loc.type))))

-- An entry of `eventsByLocation`.
pub record Group : Type 0 where
  pub key : String
  pub events : List Event

-- `eventsByLocation[key]`.
unfoldable pub events_at : String → List Group → List Event
events_at key [] = []
events_at key (g ∷ gs) = if str_eq g.key key then g.events else events_at key gs

-- `eventsByLocation[key] = append(eventsByLocation[key], event)`.
unfoldable pub put_event : String → Event → List Group → List Group
put_event key event [] = record { key = key; events = event ∷ [] } ∷ []
put_event key event (g ∷ gs) =
    let rest = put_event key event gs in
    if str_eq g.key key then record g { events = g.events ++ event ∷ [] } ∷ gs else g ∷ rest

pub record LocationPair : Type 0 where
  pub loc1_key : String
  pub loc2_key : String

-- The events of a location with its key as their value.
abbrev pub relabel : String → List Event → EventTimeline
relabel key [] = []
relabel key (e ∷ es) = record e { value = key } ∷ relabel key es

module _ ⦃w : Surveyor⦄ where
  unfoldable pub group_loop : List Group → List Event → List Group
  unfolding put_event
  group_loop groups [] = groups
  group_loop groups (e ∷ es) = group_loop (put_event (location_key e) e groups) es

  module _ ⦃f : FloatOps⦄ where
    abbrev radians : Float64 → Float64
    radians x = f.div (f.mul x w.pi) (f.literal 180 1)

    abbrev half_sine : Float64 → Float64
    half_sine x = w.sin (f.div x (f.literal 2 1))

    -- The haversine formula.
    abbrev pub calculate_fraud_distance : Float64 → Float64 → Float64 → Float64 → Float64
    calculate_fraud_distance lat1 lng1 lat2 lng2 =
        let d_lat = radians (f.sub lat2 lat1) in
        let d_lng = radians (f.sub lng2 lng1) in
        let a = f.add (f.mul (half_sine d_lat) (half_sine d_lat)) (
          f.mul (f.mul (f.mul (w.cos (radians lat1)) (w.cos (radians lat2))) (half_sine d_lng))
            (half_sine d_lng)) in
        f.mul (f.literal 6371 1)
          (f.mul (f.literal 2 1) (w.atan2 (f.sqrt a) (f.sqrt (f.sub (f.literal 1 1) a))))

    abbrev pub is_possible_fraud_travel_with_config :
        FraudLocation → FraudLocation → Duration → FraudDetectionConfig → Bool
    is_possible_fraud_travel_with_config loc1 loc2 timeframe config =
        let distance = calculate_fraud_distance loc1.lat loc1.lng loc2.lat loc2.lng in
        let hours = f.hours timeframe in
        if str_eq loc1.type "online" && str_eq loc2.type "in-store"
        then false
        else if str_eq loc2.type "online" && str_eq loc1.type "in-store"
        then false
        else if str_eq loc1.type "online" && str_eq loc2.type "online"
        then true
        else if f.lt distance config.min_distance_km
        then true
        else if f.le hours zero_float && f.le zero_float hours
        then f.lt distance (f.literal 1 10)
        else f.le (f.div distance hours) (f.mul config.flying_speed_km_h config.speed_buffer)

    abbrev time_diff : Event → Event → Duration
    time_diff ev1 ev2 =
        let d = sub ev2.timestamp ev1.timestamp in if ltb_ℤ d (pos 0) then neg_duration d else d

    -- The travel between the two events is impossible, and they are not further apart than the window.
    unfoldable pub is_impossible : Duration → FraudDetectionConfig → Event → Event → Bool
    unfolding sub neg_duration
    is_impossible window config ev1 ev2 =
        leb_ℤ (time_diff ev1 ev2) window
        && not (
            is_possible_fraud_travel_with_config (normalize_fraud_location ev1.value)
              (normalize_fraud_location ev2.value) (time_diff ev1 ev2) config)

    -- The two loops over the events of two locations: they end at the first impossible travel.
    abbrev pub is_suspicious : Duration → FraudDetectionConfig → List Event → List Event → Bool
    is_suspicious window config evs1 evs2 =
        any (λ ev1. any (is_impossible window config ev1) evs2) evs1

    module _ (window : Duration) (config : FraudDetectionConfig) (groups : List Group) where
      -- The loop over `j`.
      unfoldable pub partners : String → List String → List LocationPair
      unfolding events_at is_impossible
      partners key [] = []
      partners key (k ∷ ks) =
          let rest = partners key ks in
          if is_suspicious window config (events_at key groups) (events_at k groups)
          then record { loc1_key = key; loc2_key = k } ∷ rest
          else rest

      -- The loop over `i`.
      unfoldable pub suspicious_pairs : List String → List LocationPair
      unfolding partners
      suspicious_pairs [] = []
      suspicious_pairs (k ∷ ks) = partners k ks ++ suspicious_pairs ks

-- A timeline is kept where it is not empty.
abbrev pub keep_overlap : BoolTimeline → List BoolTimeline → List BoolTimeline
keep_overlap [] rest = rest
keep_overlap (i ∷ is) rest = (i ∷ is) ∷ rest

module _ ⦃s : Sorter⦄ (window : Duration) (groups : List Group) where
  -- `fraudulentOverlap`.
  unfoldable pub fraudulent_overlap : LocationPair → BoolTimeline
  unfolding events_at has_existed_within timeline_and
  fraudulent_overlap pair =
      let combined =
        relabel pair.loc1_key (events_at pair.loc1_key groups)
        ++ relabel pair.loc2_key (events_at pair.loc2_key groups) in
      timeline_and (
        has_existed_within combined pair.loc1_key window
        ∷ has_existed_within combined pair.loc2_key window
        ∷ [])

  unfoldable pub fraud_timelines : List LocationPair → List BoolTimeline
  unfolding fraudulent_overlap
  fraud_timelines [] = []
  fraud_timelines (pair ∷ pairs) = keep_overlap (fraudulent_overlap pair) (fraud_timelines pairs)

module _ ⦃w : Surveyor⦄ ⦃f : FloatOps⦄ ⦃s : Sorter⦄ where
  -- From the groups on.
  unfoldable pub detect_in_groups : List Group → Duration → FraudDetectionConfig → BoolTimeline
  unfolding suspicious_pairs fraud_timelines timeline_or
  detect_in_groups groups window config =
      let keys = w.order (map (λ g. g.key) groups) in
      let all = fraud_timelines window groups (suspicious_pairs window config groups keys) in
      if ltb_ℤ (pos (length all)) config.min_overlaps then [] else timeline_or all

  unfoldable pub detect_credit_card_fraud_with_config :
      EventTimeline → Duration → FraudDetectionConfig → BoolTimeline
  unfolding group_loop detect_in_groups
  detect_credit_card_fraud_with_config events window config =
      if ltb (length events) 2 then [] else detect_in_groups (group_loop [] events) window config

  abbrev pub detect_credit_card_fraud : EventTimeline → Duration → BoolTimeline
  detect_credit_card_fraud events window =
      detect_credit_card_fraud_with_config events window default_fraud_detection_config
