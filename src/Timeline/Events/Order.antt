-- ===== src/Timeline/Events/Order.antt =====
-- `HasExistedWithin` and the order of the events.
use mathlib.Core.List.{Perm}
use go_temporal_timeline.Prelude.{◌≡◌, ◌∙◌, sym, ℕ, ◌<◌, String, any-perm}
use go_temporal_timeline.Prelude.Int.{pos}
use go_temporal_timeline.GoSort.{Sorter}
use go_temporal_timeline.Timeline.Types.{EventTimeline}
use go_temporal_timeline.Timeline.Merge.Unique.{IsCanonical-eq}
use go_temporal_timeline.Timeline.Events.{has_existed_within}
use go_temporal_timeline.Timeline.Events.Existed.{
  matched_within, held-has_existed_within, has_existed_within-IsCanonical,
}

-- `HasExistedWithin` does not depend on the order in which the events are given, nor on how the
-- sort orders events of one instant: for a positive window, two sorts, and any permutation of the
-- events, the lists of intervals are equal.
pub has_existed_within-perm :
    (s s' : Sorter) (events events' : EventTimeline) (condition : String) (w : ℕ)
    → 0 < w
    → Perm events events'
    → has_existed_within ⦃s = s⦄ events condition (pos w)
      ≡ has_existed_within ⦃s = s'⦄ events' condition (pos w)
has_existed_within-perm s s' events events' condition w h q =
    IsCanonical-eq _ _ (has_existed_within-IsCanonical ⦃s = s⦄ events condition w h)
      (has_existed_within-IsCanonical ⦃s = s'⦄ events' condition w h)
      λ t.
        held-has_existed_within ⦃s = s⦄ events condition (pos w) t
        ∙ any-perm (matched_within condition (pos w) t) q
        ∙ sym (held-has_existed_within ⦃s = s'⦄ events' condition (pos w) t)
