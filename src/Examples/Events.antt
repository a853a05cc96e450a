-- ===== src/Examples/Events.antt =====
-- `LatestEventToState`, `HasExisted` and `HasExistedWithin`.
use go_temporal_timeline.Prelude.{◌≡◌, refl, true, ◌&&◌, [], ◌∷◌, any, leb, ltb, none}
use go_temporal_timeline.Prelude.Int.{pos}
use go_temporal_timeline.GoTime.{add, hour}
use go_temporal_timeline.GoSort.{sort_by}
use go_temporal_timeline.GoSort.Insertion.{insertion_sort, insertion_sorter}
use go_temporal_timeline.Timeline.Held.{held}
use go_temporal_timeline.Timeline.Events.{latest_event_to_state, has_existed, has_existed_within}
use go_temporal_timeline.Timeline.Events.Latest.{
  in_state, is_state, latest_value, in_state-latest_event_to_state,
}
use go_temporal_timeline.Timeline.Events.Existed.{
  matched_by, matched_within, held-has_existed, held-has_existed_within,
}
use go_temporal_timeline.Examples.Samples.{on, session}

-- "play" from 5 to 9, and from 12 on.
latest-session :
    latest_event_to_state session "play"
    ≡ record { state = "play"; start = 5; end = 9 }
      ∷ record { state = "play"; start = 12; end = 13 }
      ∷ []
unfolding latest_event_to_state insertion_sort
latest-session = refl

existed-session : has_existed session "pause" ≡ on 9 3_600_000_000_012 ∷ []
unfolding has_existed insertion_sort
existed-session = refl

within-session : has_existed_within session "play" (pos 3) ≡ on 5 10 ∷ on 12 15 ∷ []
unfolding has_existed_within insertion_sort
within-session = refl

in_state-latest_event_to_state_example : in_state (latest_event_to_state session "play") 8 ≡ (
    is_state "play" (latest_value none (sort_by (λ x. x.timestamp) session) 8)
    && any (λ x. leb 8 x.timestamp) session)
in_state-latest_event_to_state_example = in_state-latest_event_to_state session "play" 8

held-has_existed_example :
    held true (has_existed session "pause") 10
    ≡ (any (matched_by "pause" 10) session && any (λ x. ltb 10 (add x.timestamp hour)) session)
held-has_existed_example = held-has_existed session "pause" 10

held-has_existed_within_example :
    held true (has_existed_within session "play" (pos 3)) 6
    ≡ any (matched_within "play" (pos 3) 6) session
held-has_existed_within_example = held-has_existed_within session "play" (pos 3) 6
