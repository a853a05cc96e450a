-- ===== src/Timeline/Combine/Logic.antt =====
-- What `AND` and `OR` say of each instant, and the form of what they return.
use go_temporal_timeline.Prelude.{
  ◌≡◌, ◌∙◌, refl, Bool, true, not, ◌&&◌, ◌||◌, List, [], ◌∷◌, ◌++◌, arith, any, all, All,
  any-append, All-append, if_intro, ltb→lt, if◌then◌else◌,
}
use go_temporal_timeline.GoTime.{Time, before}
use go_temporal_timeline.GoSort.{Sorter}
use go_temporal_timeline.Timeline.Types.{BoolInterval, BoolTimeline}
use go_temporal_timeline.Timeline.Held.{covers, shows, held, IsProper, IsCanonical}
use go_temporal_timeline.Timeline.Merge.Loop.{held-merge_bool_intervals}
use go_temporal_timeline.Timeline.Merge.Canonical.{merge_bool_intervals-IsCanonical}
use go_temporal_timeline.Timeline.Combine.{
  overlap, later_start, earlier_end, and_pair, and_inner, and_outer, append_all, and_two_timelines,
  and_loop, timeline_and, timeline_or,
}

and_pair-held :
    (r : BoolTimeline) (a b : BoolInterval) (t : Time)
    → held true (and_pair r a b) t ≡ (held true r t || (covers a t && shows true t b))
unfolding and_pair
and_pair-held r a b t = ground (arith, any-append (shows true t) r (overlap a b ∷ []))

and_inner-held :
    (r : BoolTimeline) (a : BoolInterval) (bs : BoolTimeline) (t : Time)
    → held true (and_inner r a bs) t ≡ (held true r t || (covers a t && held true bs t))
unfolding and_inner
and_inner-held r a [] t = ground arith
and_inner-held r a (b ∷ bs) t =
    ground (arith, and_inner-held (and_pair r a b) a bs t, and_pair-held r a b t)

and_outer-held :
    (r xs bs : BoolTimeline) (t : Time)
    → held true (and_outer r xs bs) t ≡ (held true r t || (held true xs t && held true bs t))
unfolding and_outer
and_outer-held r [] bs t = ground arith
and_outer-held r (a ∷ xs) bs t = ground (
  arith,
  and_outer-held (if not a.value then r else and_inner r a bs) xs bs t,
  and_inner-held r a bs t,
)

and_pair-IsProper :
    (r : BoolTimeline) (a b : BoolInterval) → All IsProper r → All IsProper (and_pair r a b)
unfolding and_pair
and_pair-IsProper r a b h =
    if_intro (All IsProper) (not b.value) (λ _. h)
      λ _.
        if_intro (All IsProper) (before (later_start a b) (earlier_end a b))
          (λ e.
            All-append IsProper r (overlap a b ∷ []) h
              (record { is_true = refl; nonempty = ltb→lt _ _ e }, tt))
          (λ _. h)

and_inner-IsProper :
    (r : BoolTimeline) (a : BoolInterval) (bs : BoolTimeline)
    → All IsProper r
    → All IsProper (and_inner r a bs)
unfolding and_inner
and_inner-IsProper r a [] h = h
and_inner-IsProper r a (b ∷ bs) h =
    and_inner-IsProper (and_pair r a b) a bs (and_pair-IsProper r a b h)

and_outer-IsProper : (r xs bs : BoolTimeline) → All IsProper r → All IsProper (and_outer r xs bs)
unfolding and_outer
and_outer-IsProper r [] bs h = h
and_outer-IsProper r (a ∷ xs) bs h =
    and_outer-IsProper (if not a.value then r else and_inner r a bs) xs bs
      (if_intro (All IsProper) (not a.value) (λ _. h) (λ _. and_inner-IsProper r a bs h))

append_all-held :
    (v : Bool) (r : BoolTimeline) (tls : List BoolTimeline) (t : Time)
    → held v (append_all r tls) t ≡ (held v r t || any (λ tl. held v tl t) tls)
unfolding append_all
append_all-held v r [] t = ground arith
append_all-held v r (tl ∷ tls) t =
    ground (arith, append_all-held v (r ++ tl) tls t, any-append (shows v t) r tl)

append_all-IsProper :
    (r : BoolTimeline) (tls : List BoolTimeline)
    → All IsProper r
    → All (All IsProper) tls
    → All IsProper (append_all r tls)
unfolding append_all
append_all-IsProper r [] h k = h
append_all-IsProper r (tl ∷ tls) h k =
    append_all-IsProper (r ++ tl) tls (All-append IsProper r tl h k.0) k.1

module _ ⦃s : Sorter⦄ where
  pub held-and_two_timelines :
      (a b : BoolTimeline) (t : Time)
      → held true (and_two_timelines a b) t ≡ (held true a t && held true b t)
  unfolding and_two_timelines
  held-and_two_timelines a b t =
      held-merge_bool_intervals true (and_outer [] a b) t ∙ and_outer-held [] a b t

  and_loop-held :
      (r : BoolTimeline) (tls : List BoolTimeline) (t : Time)
      → held true (and_loop r tls) t ≡ (held true r t && all (λ tl. held true tl t) tls)
  unfolding and_loop
  and_loop-held r [] t = ground arith
  and_loop-held r (tl ∷ tls) t =
      ground (arith, and_loop-held (and_two_timelines r tl) tls t, held-and_two_timelines r tl t)

  -- `AND` of one timeline or more is true at exactly the instants at which every one of them is.
  pub held-timeline_and :
      (tl : BoolTimeline) (tls : List BoolTimeline) (t : Time)
      → held true (timeline_and (tl ∷ tls)) t ≡ all (λ each. held true each t) (tl ∷ tls)
  unfolding timeline_and
  held-timeline_and tl tls t = and_loop-held tl tls t

  -- `OR` of any number of timelines shows a value at exactly the instants at which one of them
  -- does, for each of the two values.
  pub held-timeline_or :
      (v : Bool) (tls : List BoolTimeline) (t : Time)
      → held v (timeline_or tls) t ≡ any (λ each. held v each t) tls
  unfolding timeline_or
  held-timeline_or v [] t = refl
  held-timeline_or v (tl ∷ []) t = ground arith
  held-timeline_or v (tl ∷ tl' ∷ tls) t =
      held-merge_bool_intervals v (append_all [] (tl ∷ tl' ∷ tls)) t
      ∙ append_all-held v [] (tl ∷ tl' ∷ tls) t

  -- The intersection of two timelines is canonical, whatever they are.
  pub and_two_timelines-IsCanonical : (a b : BoolTimeline) → IsCanonical (and_two_timelines a b)
  unfolding and_two_timelines
  and_two_timelines-IsCanonical a b =
      merge_bool_intervals-IsCanonical (and_outer [] a b) (and_outer-IsProper [] a b tt)

  -- `OR` of two timelines or more is canonical if their intervals are true and not empty.
  pub timeline_or-IsCanonical :
      (tl tl' : BoolTimeline) (tls : List BoolTimeline)
      → All (All IsProper) (tl ∷ tl' ∷ tls)
      → IsCanonical (timeline_or (tl ∷ tl' ∷ tls))
  unfolding timeline_or
  timeline_or-IsCanonical tl tl' tls h =
      merge_bool_intervals-IsCanonical _ (append_all-IsProper [] (tl ∷ tl' ∷ tls) tt h)
