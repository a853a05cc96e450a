-- ===== src/Temporal/Fraud/Safety.antt =====
-- What is flagged is covered by transactions at two locations.
use mathlib.Core.List.{Memᴰ}
use go_temporal_timeline.Prelude.{
  ◌≡◌, ◌≢◌, sym, ◌∙◌, true, String, List, [], map, length, ltb, inl, inr, any, if_intro,
}
use go_temporal_timeline.Prelude.Int.{pos, ltb_ℤ}
use go_temporal_timeline.GoTime.{Time, Duration}
use go_temporal_timeline.GoSort.{Sorter}
use go_temporal_timeline.GoFloat.{FloatOps}
use go_temporal_timeline.Timeline.Types.{Event, EventTimeline}
use go_temporal_timeline.Timeline.Held.{held}
use go_temporal_timeline.Timeline.Combine.Logic.{held-timeline_or}
use go_temporal_timeline.Temporal.Fraud.{
  FraudDetectionConfig, Surveyor, location_key, Group, events_at, group_loop, LocationPair,
  suspicious_pairs, fraud_timelines, detect_in_groups, detect_credit_card_fraud_with_config,
}
use go_temporal_timeline.Temporal.Fraud.Locations.{
  key_of, IsDistinct, group_loop-IsDistinct, events_at-group_loop,
}
use go_temporal_timeline.Temporal.Fraud.Overlap.{
  IsWithin, suspicious_pairs-apart, fraudulent_overlap-held, fraud_timelines-held,
}

module _ ⦃w : Surveyor⦄ ⦃f : FloatOps⦄ ⦃s : Sorter⦄ where
  -- Two of the events at different locations, both of whose windows cover the instant.
  pub record IsDoublyCovered (events : EventTimeline) (window : Duration) (t : Time) : Type 0 where
    pub first : Event
    pub second : Event
    pub first_in : Memᴰ first events
    pub second_in : Memᴰ second events
    pub apart : location_key first ≢ location_key second
    pub first_covers : IsWithin window t first
    pub second_covers : IsWithin window t second

  at_location :
      (k : String) (x : Event) (es : List Event)
      → Memᴰ x (events_at k (group_loop [] es))
      → Memᴰ x es × (location_key x ≡ k)
  unfolding events_at
  at_location k x es m = elim (events_at-group_loop k x [] es m) [
    | inl nowhere ↦ elim nowhere [ ]
    | inr r ↦ r
  ]

  pairs_of : List Group → Duration → FraudDetectionConfig → List LocationPair
  pairs_of groups window config =
      suspicious_pairs window config groups (w.order (map key_of groups))

  detect_in_groups-held :
      (groups : List Group) (window : Duration) (config : FraudDetectionConfig) (t : Time)
      → held true (detect_in_groups groups window config) t ≡ true
      → any
          (λ each. held true each t)
          (fraud_timelines window groups (pairs_of groups window config))
        ≡ true
  unfolding detect_in_groups pairs_of
  detect_in_groups-held groups window config t =
      let all = fraud_timelines window groups (pairs_of groups window config) in
      if_intro (λ tl. held true tl t ≡ true → any (λ each. held true each t) all ≡ true)
        (ltb_ℤ (pos (length all)) config.min_overlaps) (λ few h. cc)
        (λ enough h. sym (held-timeline_or true all t) ∙ h)

  covered_in_groups :
      (events : EventTimeline) (window : Duration) (config : FraudDetectionConfig) (t : Time)
      → ((ks : List String) → IsDistinct ks → IsDistinct (w.order ks))
      → held true (detect_in_groups (group_loop [] events) window config) t ≡ true
      → IsDoublyCovered events window t
  unfolding pairs_of
  covered_in_groups events window config t distinct h =
      let groups = group_loop [] events in
      let found =
        fraud_timelines-held window t groups (pairs_of groups window config)
          (detect_in_groups-held groups window config t h) in
      let both = fraudulent_overlap-held window t groups found.0 found.2 in
      let first = at_location found.0.loc1_key both.0.0 events both.0.1 in
      let second = at_location found.0.loc2_key both.1.0 events both.1.1 in
      let keys_apart =
        suspicious_pairs-apart window config groups (w.order (map key_of groups)) found.0
          (distinct (map key_of groups) (group_loop-IsDistinct [] events tt)) found.1 in
      record {
        first = both.0.0;
        second = both.1.0;
        first_in = first.0;
        second_in = second.0;
        apart = λ same. keys_apart (sym first.1 ∙ same ∙ second.1);
        first_covers = both.0.2;
        second_covers = both.1.2;
      }

  -- A card is never flagged at an instant by the transactions of one location: wherever the result
  -- is true, the windows of two of the events at different locations cover the instant, for every
  -- configuration, provided that ranging over a map meets no key twice.
  pub detect_credit_card_fraud_with_config-IsDoublyCovered :
      (events : EventTimeline) (window : Duration) (config : FraudDetectionConfig) (t : Time)
      → ((ks : List String) → IsDistinct ks → IsDistinct (w.order ks))
      → held true (detect_credit_card_fraud_with_config events window config) t ≡ true
      → IsDoublyCovered events window t
  unfolding detect_credit_card_fraud_with_config
  detect_credit_card_fraud_with_config-IsDoublyCovered events window config t distinct =
      if_intro (λ tl. held true tl t ≡ true → IsDoublyCovered events window t)
        (ltb (length events) 2) (λ few h. cc)
        (λ enough h. covered_in_groups events window config t distinct h)
