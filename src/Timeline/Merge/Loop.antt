-- ===== src/Timeline/Merge/Loop.antt =====
-- The loop of `mergeBoolIntervals` keeps what its intervals show of each instant.
use go_temporal_timeline.Prelude.{
  ◌≤◌, ◌≡◌, ◌∙◌, refl, Bool, ◌⊎◌, inl, inr, ◌||◌, [], ◌∷◌, arith, All, any-append, any-perm,
}
use go_temporal_timeline.GoTime.{Time}
use go_temporal_timeline.GoSort.{Sorter, IsAscending}
use go_temporal_timeline.Timeline.Types.{BoolInterval, BoolTimeline}
use go_temporal_timeline.Timeline.Held.{shows, held}
use go_temporal_timeline.Timeline.Merge.{
  MergeState, merge_step, merge_loop, merge_sorted, merge_bool_intervals,
}

-- What the state of the loop shows so far.
abbrev state_held : Bool → MergeState → Time → Bool
state_held v s t = held v s.merged t || shows v t s.current

-- The interval `current` begins before all that is to come.
abbrev Leads : BoolInterval → BoolTimeline → Type 0
Leads c rest = All (λ i. c.start ≤ i.start) rest

merge_step-held :
    (v : Bool) (t : Time) (s : MergeState) (next : BoolInterval)
    → s.current.start ≤ next.start
    → state_held v (merge_step s next) t ≡ (state_held v s t || shows v t next)
unfolding merge_step
merge_step-held v t s next h = ground (arith, any-append (shows v t) s.merged (s.current ∷ []))

merge_step-start :
    (s : MergeState) (next : BoolInterval)
    → ((merge_step s next).current.start ≡ s.current.start)
      ⊎ ((merge_step s next).current.start ≡ next.start)
unfolding merge_step
merge_step-start s next = ground arith

merge_step-Leads :
    (s : MergeState) (next : BoolInterval) (rest : BoolTimeline)
    → Leads s.current rest
    → Leads next rest
    → Leads (merge_step s next).current rest
merge_step-Leads s next rest h k = elim (merge_step-start s next) [
  | inl e ↦ rw e h
  | inr e ↦ rw e k
]

merge_loop-held :
    (v : Bool) (t : Time) (s : MergeState) (rest : BoolTimeline)
    → Leads s.current rest
    → IsAscending (λ i. i.start) rest
    → held v (merge_loop s rest) t ≡ (state_held v s t || held v rest t)
unfolding merge_loop
merge_loop-held v t s [] h k = ground (arith, any-append (shows v t) s.merged (s.current ∷ []))
merge_loop-held v t s (next ∷ rest) h k = ground (
  arith,
  merge_loop-held v t (merge_step s next) rest (merge_step-Leads s next rest h.1 k.0) k.1,
  merge_step-held v t s next h.0,
)

merge_sorted-held :
    (v : Bool) (t : Time) (tl : BoolTimeline)
    → IsAscending (λ i. i.start) tl
    → held v (merge_sorted tl) t ≡ held v tl t
unfolding merge_sorted
merge_sorted-held v t [] h = refl
merge_sorted-held v t (i ∷ is) h =
    merge_loop-held v t (record { merged = []; current = i }) is h.0 h.1

-- Merging changes nothing of what a timeline says: at each instant, and for each of the two
-- values, the merged timeline has an interval of the value there exactly when the given one has.
pub held-merge_bool_intervals :
    ⦃s : Sorter⦄ (v : Bool) (tl : BoolTimeline) (t : Time)
    → held v (merge_bool_intervals tl) t ≡ held v tl t
unfolding merge_bool_intervals
held-merge_bool_intervals ⦃s⦄ v tl t =
    merge_sorted-held v t _ (s.sort-IsAscending BoolInterval (λ i. i.start) tl)
    ∙ any-perm (shows v t) (s.sort-perm BoolInterval (λ i. i.start) tl)
