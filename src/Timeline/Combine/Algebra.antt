-- ===== src/Timeline/Combine/Algebra.antt =====
-- `AND` and `OR` as operations on timelines: laws that hold of the returned lists themselves,
-- since a canonical timeline is determined by what it says.
use go_temporal_timeline.Prelude.{◌≡◌, ◌∙◌, sym, true, List, [], ◌∷◌, arith, All, any-perm}
use mathlib.Core.List.{Perm}
use go_temporal_timeline.GoTime.{Time}
use go_temporal_timeline.GoSort.{Sorter}
use go_temporal_timeline.Timeline.Types.{BoolTimeline}
use go_temporal_timeline.Timeline.Held.{held, IsProper, Separated, IsCanonical}
use go_temporal_timeline.Timeline.Merge.{merge_bool_intervals}
use go_temporal_timeline.Timeline.Merge.Loop.{held-merge_bool_intervals}
use go_temporal_timeline.Timeline.Merge.Canonical.{merge_bool_intervals-IsCanonical}
use go_temporal_timeline.Timeline.Merge.Unique.{IsCanonical-eq}
use go_temporal_timeline.Timeline.Combine.{and_two_timelines, timeline_or}
use go_temporal_timeline.Timeline.Combine.Logic.{
  held-and_two_timelines, held-timeline_or, and_two_timelines-IsCanonical, timeline_or-IsCanonical,
}

Separated-IsProper : (e : Time) (tl : BoolTimeline) → Separated e tl → All IsProper tl
Separated-IsProper e [] s = tt
Separated-IsProper e (i ∷ is) s = (s.1, Separated-IsProper i.end is s.2)

pub IsCanonical-IsProper : (tl : BoolTimeline) → IsCanonical tl → All IsProper tl
IsCanonical-IsProper [] c = tt
IsCanonical-IsProper (i ∷ is) c = (c.0, Separated-IsProper i.end is c.1)

-- The merged list does not depend on how the sort orders intervals with one start: any two sorts
-- that keep the promise of `sort.Slice` give the same list, for true intervals that are not empty.
pub merge_bool_intervals-unstable :
    (s s' : Sorter) (tl : BoolTimeline)
    → All IsProper tl
    → merge_bool_intervals ⦃s = s⦄ tl ≡ merge_bool_intervals ⦃s = s'⦄ tl
merge_bool_intervals-unstable s s' tl h =
    IsCanonical-eq _ _ (merge_bool_intervals-IsCanonical ⦃s = s⦄ tl h)
      (merge_bool_intervals-IsCanonical ⦃s = s'⦄ tl h)
      λ t.
        held-merge_bool_intervals ⦃s = s⦄ true tl t
        ∙ sym (held-merge_bool_intervals ⦃s = s'⦄ true tl t)

module _ ⦃s : Sorter⦄ where
  -- Merging a merged list changes nothing, for true intervals that are not empty.
  pub merge_bool_intervals-idempotent :
      (tl : BoolTimeline)
      → All IsProper tl
      → merge_bool_intervals (merge_bool_intervals tl) ≡ merge_bool_intervals tl
  merge_bool_intervals-idempotent tl h =
      let c = merge_bool_intervals-IsCanonical tl h in
      IsCanonical-eq _ _ (merge_bool_intervals-IsCanonical _ (IsCanonical-IsProper _ c)) c
        (held-merge_bool_intervals true (merge_bool_intervals tl))

  and_comm : (a b : BoolTimeline) → and_two_timelines a b ≡ and_two_timelines b a
  and_comm a b =
      IsCanonical-eq _ _ (and_two_timelines-IsCanonical a b) (and_two_timelines-IsCanonical b a)
        λ t. ground (arith, held-and_two_timelines a b t, held-and_two_timelines b a t)

  and_assoc :
      (a b c : BoolTimeline)
      → and_two_timelines (and_two_timelines a b) c ≡ and_two_timelines a (and_two_timelines b c)
  and_assoc a b c =
      IsCanonical-eq _ _ (and_two_timelines-IsCanonical (and_two_timelines a b) c)
        (and_two_timelines-IsCanonical a (and_two_timelines b c))
        λ t. ground (
          arith,
          held-and_two_timelines a b t,
          held-and_two_timelines b c t,
          held-and_two_timelines (and_two_timelines a b) c t,
          held-and_two_timelines a (and_two_timelines b c) t,
        )

  -- The intersection of two timelines is commutative and associative, as an operation on lists of
  -- intervals, whatever the lists are.
  pub and_two_timelines_laws :
      (a b c : BoolTimeline)
      → (and_two_timelines a b ≡ and_two_timelines b a)
        × (and_two_timelines (and_two_timelines a b) c
            ≡ and_two_timelines a (and_two_timelines b c))
  and_two_timelines_laws a b c = (and_comm a b, and_assoc a b c)

  -- Intersection distributes over `OR`: the two sides are one list of intervals, whatever the
  -- three timelines are.
  pub and_two_timelines-timeline_or :
      (a b c : BoolTimeline)
      → and_two_timelines a (timeline_or (b ∷ c ∷ []))
        ≡ timeline_or (and_two_timelines a b ∷ and_two_timelines a c ∷ [])
  and_two_timelines-timeline_or a b c =
      IsCanonical-eq _ _ (and_two_timelines-IsCanonical a (timeline_or (b ∷ c ∷ [])))
        (timeline_or-IsCanonical (and_two_timelines a b) (and_two_timelines a c) [] (
          IsCanonical-IsProper _ (and_two_timelines-IsCanonical a b),
          (IsCanonical-IsProper _ (and_two_timelines-IsCanonical a c), tt),
        ))
        λ t. ground (
          arith,
          held-and_two_timelines a (timeline_or (b ∷ c ∷ [])) t,
          held-timeline_or true (b ∷ c ∷ []) t,
          held-and_two_timelines a b t,
          held-and_two_timelines a c t,
          held-timeline_or true (and_two_timelines a b ∷ and_two_timelines a c ∷ []) t,
        )

  -- `OR` does not depend on the order of its operands: for two timelines or more, all of whose
  -- intervals are true and not empty, any permutation of them gives the same list.
  pub timeline_or-perm :
      (x y x' y' : BoolTimeline) (tls tls' : List BoolTimeline)
      → All (All IsProper) (x ∷ y ∷ tls)
      → All (All IsProper) (x' ∷ y' ∷ tls')
      → Perm (x ∷ y ∷ tls) (x' ∷ y' ∷ tls')
      → timeline_or (x ∷ y ∷ tls) ≡ timeline_or (x' ∷ y' ∷ tls')
  timeline_or-perm x y x' y' tls tls' h h' p =
      IsCanonical-eq _ _ (timeline_or-IsCanonical x y tls h) (timeline_or-IsCanonical x' y' tls' h')
        λ t.
          held-timeline_or true (x ∷ y ∷ tls) t
          ∙ any-perm (λ each. held true each t) p
          ∙ sym (held-timeline_or true (x' ∷ y' ∷ tls') t)
