-- ===== src/Examples/Combining.antt =====
-- `AND`, `OR` and `NOT`.
use go_temporal_timeline.Prelude.{
  ◌≡◌, refl, true, false, not, ◌&&◌, [], ◌∷◌, arith, any, all, leb, ltb,
}
use go_temporal_timeline.GoSort.Insertion.{insertion_sort, insertion_sorter}
use go_temporal_timeline.Timeline.Held.{held}
use go_temporal_timeline.Timeline.Combine.{
  and_two_timelines, timeline_and, timeline_or, timeline_not,
}
use go_temporal_timeline.Timeline.Combine.Logic.{held-timeline_and, held-timeline_or}
use go_temporal_timeline.Timeline.Combine.Algebra.{and_two_timelines_laws}
use go_temporal_timeline.Timeline.Combine.Complement.{held-timeline_not}
use go_temporal_timeline.Timeline.Combine.Negation.{and_two_timelines-timeline_not}
use go_temporal_timeline.Examples.Samples.{on, off, scattered, morning, evening}

and-morning-evening : timeline_and (morning ∷ evening ∷ []) ≡ on 4 6 ∷ on 9 10 ∷ []
unfolding timeline_and insertion_sort
and-morning-evening = refl

or-morning-evening : timeline_or (morning ∷ evening ∷ []) ≡ on 1 12 ∷ []
unfolding timeline_or insertion_sort
or-morning-evening = refl

not-morning : timeline_not morning ≡ off 6 9 ∷ []
unfolding timeline_not
not-morning = refl

-- Where intervals overlap in the wrong order, `NOT` returns a time that is not false.
not-nested : timeline_not (on 1 9 ∷ on 2 3 ∷ []) ≡ off 3 9 ∷ []
unfolding timeline_not
not-nested = refl

held-timeline_and_example :
    held true (timeline_and (morning ∷ evening ∷ scattered ∷ [])) 5
    ≡ all (λ each. held true each 5) (morning ∷ evening ∷ scattered ∷ [])
held-timeline_and_example = held-timeline_and morning (evening ∷ scattered ∷ []) 5

held-timeline_or_example :
    held true (timeline_or (morning ∷ evening ∷ [])) 7
    ≡ any (λ each. held true each 7) (morning ∷ evening ∷ [])
held-timeline_or_example = held-timeline_or true (morning ∷ evening ∷ []) 7

and_two_timelines_laws_example :
    (and_two_timelines morning evening ≡ and_two_timelines evening morning)
    × (and_two_timelines (and_two_timelines morning evening) scattered
        ≡ and_two_timelines morning (and_two_timelines evening scattered))
and_two_timelines_laws_example = and_two_timelines_laws morning evening scattered

held-timeline_not_example : held false (timeline_not morning) 7 ≡ (
    any (λ i. leb i.start 7) morning && any (λ i. ltb 7 i.end) morning && not (held true morning 7))
held-timeline_not_example = held-timeline_not morning 7 (ground arith)

and_two_timelines-timeline_not_example : and_two_timelines evening (timeline_not morning) ≡ []
and_two_timelines-timeline_not_example = and_two_timelines-timeline_not evening morning
