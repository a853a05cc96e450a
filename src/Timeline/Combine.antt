-- ===== src/Timeline/Combine.antt =====
-- `AND`, `OR`, `NOT` and `andTwoTimelines` of pkg/timeline/operators.go.
pub mod Logic
pub mod Algebra
pub mod Complement
pub mod Negation
use go_temporal_timeline.Prelude.{Bool, true, false, not, List, [], ◌∷◌, ◌++◌, if◌then◌else◌}
use go_temporal_timeline.GoTime.{Time, before, after}
use go_temporal_timeline.GoSort.{Sorter}
use go_temporal_timeline.Timeline.Types.{BoolInterval, BoolTimeline}
use go_temporal_timeline.Timeline.Merge.{merge_bool_intervals}

abbrev later_start : BoolInterval → BoolInterval → Time
later_start a b = if after b.start a.start then b.start else a.start

abbrev earlier_end : BoolInterval → BoolInterval → Time
earlier_end a b = if before b.end a.end then b.end else a.end

abbrev overlap : BoolInterval → BoolInterval → BoolInterval
overlap a b = record { value = true; start = later_start a b; end = earlier_end a b }

-- The body of the inner loop: `result` is extended by the intersection of two true intervals.
and_pair : BoolTimeline → BoolInterval → BoolInterval → BoolTimeline
and_pair result a b =
    if not b.value
    then result
    else if before (later_start a b) (earlier_end a b)
    then result ++ overlap a b ∷ []
    else result

and_inner : BoolTimeline → BoolInterval → BoolTimeline → BoolTimeline
and_inner result a [] = result
and_inner result a (b ∷ bs) = and_inner (and_pair result a b) a bs

and_outer : BoolTimeline → BoolTimeline → BoolTimeline → BoolTimeline
and_outer result [] bs = result
and_outer result (a ∷ xs) bs =
    and_outer (if not a.value then result else and_inner result a bs) xs bs

-- A variadic parameter of Go is a list.
append_all : BoolTimeline → List BoolTimeline → BoolTimeline
append_all all [] = all
append_all all (tl ∷ tls) = append_all (all ++ tl) tls

module _ ⦃s : Sorter⦄ where
  unfoldable pub and_two_timelines : BoolTimeline → BoolTimeline → BoolTimeline
  unfolding and_outer and_inner and_pair merge_bool_intervals
  and_two_timelines a b = merge_bool_intervals (and_outer [] a b)

  and_loop : BoolTimeline → List BoolTimeline → BoolTimeline
  and_loop result [] = result
  and_loop result (tl ∷ tls) = and_loop (and_two_timelines result tl) tls

  unfoldable pub timeline_and : List BoolTimeline → BoolTimeline
  unfolding and_loop and_two_timelines
  timeline_and [] = []
  timeline_and (tl ∷ tls) = and_loop tl tls

  unfoldable pub timeline_or : List BoolTimeline → BoolTimeline
  unfolding append_all merge_bool_intervals
  timeline_or [] = []
  timeline_or (tl ∷ []) = tl
  timeline_or (tl ∷ tl' ∷ tls) = merge_bool_intervals (append_all [] (tl ∷ tl' ∷ tls))

-- The variables of the first loop of `NOT`: `minTime` and `maxTime`.
pub record Range : Type 0 where
  pub min_time : Time
  pub max_time : Time

widen : Range → BoolInterval → Range
widen r i = record {
  min_time = if before i.start r.min_time then i.start else r.min_time;
  max_time = if after i.end r.max_time then i.end else r.max_time;
}

range_loop : Range → BoolTimeline → Range
range_loop r [] = r
range_loop r (i ∷ is) = range_loop (widen r i) is

-- The second loop: `currentTime` and `result`.
pub record NotState : Type 0 where
  pub current_time : Time
  pub result : BoolTimeline

abbrev gap : NotState → Time → BoolTimeline
gap s until =
    if before s.current_time until
    then s.result ++ record { value = false; start = s.current_time; end = until } ∷ []
    else s.result

not_step : NotState → BoolInterval → NotState
not_step s i = if i.value then record { current_time = i.end; result = gap s i.start } else s

not_loop : NotState → BoolTimeline → NotState
not_loop s [] = s
not_loop s (i ∷ is) = not_loop (not_step s i) is

not_within : Range → BoolTimeline → BoolTimeline
not_within r tl = gap (not_loop (record { current_time = r.min_time; result = [] }) tl) r.max_time

unfoldable pub timeline_not : BoolTimeline → BoolTimeline
unfolding not_within not_loop not_step range_loop widen
timeline_not [] = []
timeline_not (i ∷ is) =
    not_within (range_loop (record { min_time = i.start; max_time = i.end }) (i ∷ is)) (i ∷ is)
