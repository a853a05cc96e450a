-- ===== src/Timeline/Events.antt =====
-- `LatestEventToState`, `HasExisted` and `HasExistedWithin` of pkg/timeline/operators.go.
pub mod Latest
pub mod Existed
pub mod Order
use go_temporal_timeline.Prelude.{
  ℕ, ◌+◌, Bool, true, false, not, ◌&&◌, ◌||◌, String, List, [], ◌∷◌, ◌++◌, ltb, ◌==◌, str_eq,
  last_from, if◌then◌else◌,
}
use go_temporal_timeline.GoTime.{Time, Duration, zero_time, add, nanosecond, hour}
use go_temporal_timeline.GoSort.{Sorter, sort_by}
use go_temporal_timeline.Timeline.Types.{Event, EventTimeline, StateTimeline, BoolTimeline}
use go_temporal_timeline.Timeline.Merge.{merge_bool_intervals}

-- The variables of the loop of `LatestEventToState`, and the index of the range clause.
pub record LatestState : Type 0 where
  pub index : ℕ
  pub intervals : StateTimeline
  pub current_state : String
  pub state_start : Time

abbrev close_interval : String → LatestState → Time → StateTimeline
close_interval equals s end =
    if str_eq s.current_state equals
    then s.intervals ++ record { state = s.current_state; start = s.state_start; end = end } ∷ []
    else s.intervals

latest_step : String → LatestState → Event → LatestState
latest_step equals s event =
    if s.index == 0 || not (str_eq event.value s.current_state)
    then record {
      index = s.index + 1;
      intervals = if ltb 0 s.index then close_interval equals s event.timestamp else s.intervals;
      current_state = event.value;
      state_start = event.timestamp;
    }
    else record s { index = s.index + 1 }

latest_loop : String → LatestState → EventTimeline → LatestState
latest_loop equals s [] = s
latest_loop equals s (event ∷ rest) = latest_loop equals (latest_step equals s event) rest

latest_sorted : String → EventTimeline → StateTimeline
latest_sorted equals [] = []
latest_sorted equals (first ∷ rest) =
    close_interval equals
      (latest_loop equals
        (record { index = 0; intervals = []; current_state = ""; state_start = zero_time })
        (first ∷ rest))
      (add (last_from first rest).timestamp nanosecond)

-- The variables of the loop of `HasExisted`.
pub record ExistedState : Type 0 where
  pub has_existed : Bool
  pub true_start : Time

existed_step : String → ExistedState → Event → ExistedState
existed_step condition s event =
    if str_eq event.value condition && not s.has_existed
    then record { has_existed = true; true_start = event.timestamp }
    else s

existed_loop : String → ExistedState → EventTimeline → ExistedState
existed_loop condition s [] = s
existed_loop condition s (event ∷ rest) =
    existed_loop condition (existed_step condition s event) rest

existed_interval : ExistedState → Event → BoolTimeline
existed_interval s last =
    if s.has_existed
    then record { value = true; start = s.true_start; end = add last.timestamp hour } ∷ []
    else []

existed_sorted : String → EventTimeline → BoolTimeline
existed_sorted condition [] = []
existed_sorted condition (first ∷ rest) =
    existed_interval
      (existed_loop condition (record { has_existed = false; true_start = zero_time })
        (first ∷ rest))
      (last_from first rest)

matching_loop : String → List Time → EventTimeline → List Time
matching_loop condition times [] = times
matching_loop condition times (event ∷ rest) =
    matching_loop condition
      (if str_eq event.value condition then times ++ event.timestamp ∷ [] else times) rest

windows_loop : Duration → BoolTimeline → List Time → BoolTimeline
windows_loop window intervals [] = intervals
windows_loop window intervals (time ∷ times) =
    windows_loop window
      (intervals ++ record { value = true; start = time; end = add time window } ∷ []) times

module _ ⦃s : Sorter⦄ where
  -- `intervals` is still nil when no event matches.
  within_times : Duration → List Time → BoolTimeline
  within_times window [] = []
  within_times window (time ∷ times) = merge_bool_intervals (windows_loop window [] (time ∷ times))

  unfoldable pub latest_event_to_state : EventTimeline → String → StateTimeline
  unfolding latest_sorted latest_loop latest_step
  latest_event_to_state [] equals = []
  latest_event_to_state (e ∷ events) equals =
      latest_sorted equals (sort_by (λ x. x.timestamp) (e ∷ events))

  unfoldable pub has_existed : EventTimeline → String → BoolTimeline
  unfolding existed_sorted existed_interval existed_loop existed_step
  has_existed [] condition = []
  has_existed (e ∷ events) condition =
      existed_sorted condition (sort_by (λ x. x.timestamp) (e ∷ events))

  unfoldable pub has_existed_within : EventTimeline → String → Duration → BoolTimeline
  unfolding within_times windows_loop matching_loop merge_bool_intervals
  has_existed_within [] condition window = []
  has_existed_within (e ∷ events) condition window =
      within_times window (matching_loop condition [] (sort_by (λ x. x.timestamp) (e ∷ events)))
