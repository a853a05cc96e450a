-- ===== src/Timeline/Merge/Canonical.antt =====
-- The list that `mergeBoolIntervals` returns is canonical when its intervals are true and not
-- empty: they are in order, and between two of them there is a gap.
use go_temporal_timeline.Prelude.{
  ◌<◌, ◌≡◌, ◌∙◌, refl, inl, inr, true, false, [], ◌∷◌, ◌++◌, arith, All, All-perm, append_assoc,
  Bool-cases,
}
use mathlib.Core.List.Perm
use native.Mathlib.Bridge.{le_prop}
use go_temporal_timeline.GoTime.{Time}
use go_temporal_timeline.GoSort.{Sorter}
use go_temporal_timeline.Timeline.Types.{BoolInterval, BoolTimeline}
use go_temporal_timeline.Timeline.Held.{IsProper, Separated, IsCanonical}
use go_temporal_timeline.Timeline.Merge.{
  MergeState, joins, extend, merge_step, merge_loop, merge_sorted, merge_bool_intervals,
}

-- The intervals that the loop still adds to `merged`.
merge_rest : BoolInterval → BoolTimeline → BoolTimeline
merge_rest c [] = c ∷ []
merge_rest c (next ∷ rest) = elim (joins c next) [
  | true ↦ merge_rest (extend c next) rest
  | false ↦ c ∷ merge_rest next rest
]

merge_rest_join :
    (c next : BoolInterval) (rest : BoolTimeline)
    → joins c next ≡ true
    → merge_rest c (next ∷ rest) ≡ merge_rest (extend c next) rest
unfolding merge_rest
merge_rest_join c next rest e = rw (e, merge_rest)

merge_rest_apart :
    (c next : BoolInterval) (rest : BoolTimeline)
    → joins c next ≡ false
    → merge_rest c (next ∷ rest) ≡ c ∷ merge_rest next rest
unfolding merge_rest
merge_rest_apart c next rest e = rw (e, merge_rest)

merge_loop-merge_rest :
    (s : MergeState) (rest : BoolTimeline)
    → merge_loop s rest ≡ s.merged ++ merge_rest s.current rest
unfolding merge_loop merge_step merge_rest
merge_loop-merge_rest s [] = refl
merge_loop-merge_rest s (next ∷ rest) = elim (Bool-cases (joins s.current next)) [
  | inl e ↦
      rw (e, merge_rest_join s.current next rest e)
        (merge_loop-merge_rest (record s { current = extend s.current next }) rest)
  | inr e ↦
      rw (e, merge_rest_apart s.current next rest e)
        (merge_loop-merge_rest (record { merged = s.merged ++ s.current ∷ []; current = next }) rest
          ∙ append_assoc s.merged (s.current ∷ []) (merge_rest next rest))
]

extend-IsProper : (c next : BoolInterval) → IsProper c → IsProper (extend c next)
extend-IsProper c next p = ground arith

apart :
    (c next : BoolInterval) → IsProper c → IsProper next → joins c next ≡ false → c.end < next.start
unfolding joins
apart c next p q h = ground arith

merge_rest-Separated :
    (e : Time) (c : BoolInterval) (rest : BoolTimeline)
    → e < c.start
    → IsProper c
    → All IsProper rest
    → Separated e (merge_rest c rest)
unfolding merge_rest
merge_rest-Separated e c [] h p all = (h, p, tt)
merge_rest-Separated e c (next ∷ rest) h p all = elim (Bool-cases (joins c next)) [
  | inl j ↦
      rw (merge_rest_join c next rest j) (
        merge_rest-Separated e (extend c next) rest (ground arith) (extend-IsProper c next p) all.1)
  | inr j ↦
      rw (merge_rest_apart c next rest j)
        (h, p, merge_rest-Separated c.end next rest (apart c next p all.0 j) all.0 all.1)
]

merge_rest-IsCanonical :
    (c : BoolInterval) (rest : BoolTimeline)
    → IsProper c
    → All IsProper rest
    → IsCanonical (merge_rest c rest)
unfolding merge_rest
merge_rest-IsCanonical c [] p all = (p, tt)
merge_rest-IsCanonical c (next ∷ rest) p all = elim (Bool-cases (joins c next)) [
  | inl j ↦
      rw (merge_rest_join c next rest j)
        (merge_rest-IsCanonical (extend c next) rest (extend-IsProper c next p) all.1)
  | inr j ↦
      rw (merge_rest_apart c next rest j)
        (p, merge_rest-Separated c.end next rest (apart c next p all.0 j) all.0 all.1)
]

merge_sorted-IsCanonical : (tl : BoolTimeline) → All IsProper tl → IsCanonical (merge_sorted tl)
unfolding merge_sorted
merge_sorted-IsCanonical [] all = tt
merge_sorted-IsCanonical (i ∷ is) all =
    rw (merge_loop-merge_rest (record { merged = []; current = i }) is)
      (merge_rest-IsCanonical i is all.0 all.1)

pub IsProper-prop : (i : BoolInterval) → IsProp (IsProper i)
IsProper-prop i = hlevel le_prop

-- When every given interval is true and not empty, the merged intervals are too, and each begins
-- strictly after the one before it has ended.
pub merge_bool_intervals-IsCanonical :
    ⦃s : Sorter⦄ (tl : BoolTimeline) → All IsProper tl → IsCanonical (merge_bool_intervals tl)
unfolding merge_bool_intervals
merge_bool_intervals-IsCanonical ⦃s⦄ tl all =
    merge_sorted-IsCanonical _
      (All-perm IsProper IsProper-prop (Perm.symm (s.sort-perm BoolInterval (λ i. i.start) tl)) all)
