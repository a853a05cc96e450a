-- ===== src/Timeline/Events/Existed.antt =====
-- What `HasExisted` and `HasExistedWithin` say of each instant.
use go_temporal_timeline.Prelude.{
  ◌+◌, ◌≤◌, ◌<◌, ◌≡◌, ◌∙◌, refl, Bool, true, false, ◌&&◌, ◌||◌, List, [], ◌∷◌, ◌++◌, arith, ltb,
  leb, String, str_eq, any, ℕ, ◌⊎◌, All, All-append, any-perm, any-append, inl, inr, if◌then◌else◌,
  last_from,
}
use go_temporal_timeline.Prelude.Int.{pos}
use mathlib.Core.Path.{ap₂}
use native.Mathlib.Nat.{le_trans}
use go_temporal_timeline.GoTime.{Time, Duration, add, hour, zero_time}
use go_temporal_timeline.GoSort.{Sorter, IsAscending}
use go_temporal_timeline.Timeline.Types.{Event, EventTimeline, BoolInterval, BoolTimeline}
use go_temporal_timeline.Timeline.Held.{shows, held, IsProper, IsCanonical}
use go_temporal_timeline.Timeline.Merge.Loop.{held-merge_bool_intervals}
use go_temporal_timeline.Timeline.Merge.Canonical.{merge_bool_intervals-IsCanonical}
use go_temporal_timeline.Timeline.Events.Latest.{last-le}
use go_temporal_timeline.Timeline.Events.{
  ExistedState, existed_step, existed_loop, existed_interval, existed_sorted, matching_loop,
  windows_loop, within_times, has_existed, has_existed_within,
}

-- The event matches and is not after the instant.
abbrev pub matched_by : String → Time → Event → Bool
matched_by condition t e = str_eq e.value condition && leb e.timestamp t

-- What the state of the loop of `HasExisted` says: it has seen a match that is not after `t`.
abbrev seen : ExistedState → Time → Bool
seen s t = s.has_existed && leb s.true_start t

existed_step-seen :
    (condition : String) (s : ExistedState) (e : Event) (t : Time)
    → (s.has_existed ≡ true → s.true_start ≤ e.timestamp)
    → seen (existed_step condition s e) t ≡ (seen s t || matched_by condition t e)
unfolding existed_step
existed_step-seen condition s e t h = ground arith

existed_step_start :
    (condition : String) (s : ExistedState) (e : Event)
    → (s.has_existed ≡ true → s.true_start ≤ e.timestamp)
    → (existed_step condition s e).true_start ≤ e.timestamp
      ⊎ ((existed_step condition s e).has_existed ≡ false)
unfolding existed_step
existed_step_start condition s e h = ground arith

-- A match that has been seen is not after the events to come.
abbrev NotLater : ExistedState → EventTimeline → Type 0
NotLater s es = All (λ e. s.has_existed ≡ true → s.true_start ≤ e.timestamp) es

NotLater-of_le :
    (s : ExistedState) (e : Event) (es : EventTimeline)
    → s.true_start ≤ e.timestamp
    → All (λ x. e.timestamp ≤ x.timestamp) es
    → NotLater s es
NotLater-of_le s e [] h k = tt
NotLater-of_le s e (x ∷ es) h k = (λ _. le_trans h k.0, NotLater-of_le s e es h k.1)

NotLater-unseen : (s : ExistedState) (es : EventTimeline) → s.has_existed ≡ false → NotLater s es
NotLater-unseen s [] h = tt
NotLater-unseen s (x ∷ es) h = (λ on. absurd (ground arith), NotLater-unseen s es h)

existed_step-NotLater :
    (condition : String) (s : ExistedState) (e : Event) (es : EventTimeline)
    → (s.has_existed ≡ true → s.true_start ≤ e.timestamp)
    → All (λ x. e.timestamp ≤ x.timestamp) es
    → NotLater (existed_step condition s e) es
existed_step-NotLater condition s e es h k = elim (existed_step_start condition s e h) [
  | inl le ↦ NotLater-of_le _ e es le k
  | inr off ↦ NotLater-unseen _ es off
]

existed_loop-seen :
    (condition : String) (s : ExistedState) (es : EventTimeline) (t : Time)
    → NotLater s es
    → IsAscending (λ e. e.timestamp) es
    → seen (existed_loop condition s es) t ≡ (seen s t || any (matched_by condition t) es)
unfolding existed_loop
existed_loop-seen condition s [] t h k = ground arith
existed_loop-seen condition s (e ∷ es) t h k = ground (
  arith,
  existed_step-seen condition s e t h.0,
  existed_loop-seen condition (existed_step condition s e) es t
      (existed_step-NotLater condition s e es h.0 k.0) k.1,
)

latest_end :
    (e : Event) (es : EventTimeline) (t : Time)
    → IsAscending (λ x. x.timestamp) (e ∷ es)
    → any (λ x. ltb t (add x.timestamp hour)) (e ∷ es) ≡ ltb t (add (last_from e es).timestamp hour)
latest_end e [] t h = ground arith
latest_end e (x ∷ es) t h = ground (arith, latest_end x es t h.1, h.0.0, last-le x es h.1)

existed_sorted-held :
    (condition : String) (es : EventTimeline) (t : Time)
    → IsAscending (λ x. x.timestamp) es
    → held true (existed_sorted condition es) t
      ≡ (any (matched_by condition t) es && any (λ x. ltb t (add x.timestamp hour)) es)
unfolding existed_sorted existed_interval
existed_sorted-held condition [] t h = refl
existed_sorted-held condition (e ∷ es) t h =
    let start : ExistedState = record { has_existed = false; true_start = zero_time } in
    ground (
      arith,
      existed_loop-seen condition start (e ∷ es) t (NotLater-unseen start (e ∷ es) refl) h,
      latest_end e es t h,
    )

matching_loop-any :
    (condition : String) (p : Time → Bool) (times : List Time) (es : EventTimeline)
    → any p (matching_loop condition times es)
      ≡ (any p times || any (λ e. str_eq e.value condition && p e.timestamp) es)
unfolding matching_loop
matching_loop-any condition p times [] = ground arith
matching_loop-any condition p times (e ∷ es) = ground (
  arith,
  matching_loop-any condition p
      (if str_eq e.value condition then times ++ e.timestamp ∷ [] else times) es,
  any-append p times (e.timestamp ∷ []),
)

windows_loop-held :
    (window : Duration) (tl : BoolTimeline) (times : List Time) (t : Time)
    → held true (windows_loop window tl times) t
      ≡ (held true tl t || any (λ u. leb u t && ltb t (add u window)) times)
unfolding windows_loop
windows_loop-held window tl [] t = ground arith
windows_loop-held window tl (u ∷ times) t =
    let i : BoolInterval = record { value = true; start = u; end = add u window } in
    ground (
      arith,
      windows_loop-held window (tl ++ i ∷ []) times t,
      any-append (shows true t) tl (i ∷ []),
    )

windows_loop-IsProper :
    (w : ℕ) (tl : BoolTimeline) (times : List Time)
    → 0 < w
    → All IsProper tl
    → All IsProper (windows_loop (pos w) tl times)
unfolding windows_loop
windows_loop-IsProper w tl [] h k = k
windows_loop-IsProper w tl (u ∷ times) h k =
    let i : BoolInterval = record { value = true; start = u; end = u + w } in
    windows_loop-IsProper w (tl ++ i ∷ []) times h
      (All-append IsProper tl (i ∷ []) k (record { is_true = refl; nonempty = omega arith }, tt))

-- The event matches, and the instant lies in the window that begins with it.
abbrev pub matched_within : String → Duration → Time → Event → Bool
matched_within condition window t e =
    str_eq e.value condition && (leb e.timestamp t && ltb t (add e.timestamp window))

module _ ⦃s : Sorter⦄ where
  within_times-held :
      (window : Duration) (times : List Time) (t : Time)
      → held true (within_times window times) t ≡ any (λ u. leb u t && ltb t (add u window)) times
  unfolding within_times
  within_times-held window [] t = refl
  within_times-held window (u ∷ times) t =
      held-merge_bool_intervals true _ t ∙ windows_loop-held window [] (u ∷ times) t

  within_times-IsCanonical :
      (w : ℕ) (times : List Time) → 0 < w → IsCanonical (within_times (pos w) times)
  unfolding within_times
  within_times-IsCanonical w [] h = tt
  within_times-IsCanonical w (u ∷ times) h =
      merge_bool_intervals-IsCanonical _ (windows_loop-IsProper w [] (u ∷ times) h tt)

  -- `HasExisted` is true at an instant exactly when some event that is not after it matches, and
  -- some event lies less than an hour before it or is later.
  pub held-has_existed :
      (events : EventTimeline) (condition : String) (t : Time)
      → held true (has_existed events condition) t
        ≡ (any (matched_by condition t) events && any (λ x. ltb t (add x.timestamp hour)) events)
  unfolding has_existed
  held-has_existed [] condition t = refl
  held-has_existed (e ∷ events) condition t =
      let p = s.sort-perm Event (λ x. x.timestamp) (e ∷ events) in
      existed_sorted-held condition _ t (s.sort-IsAscending Event (λ x. x.timestamp) (e ∷ events))
      ∙ ap₂ ◌&&◌ (any-perm (matched_by condition t) p)
          (any-perm (λ x. ltb t (add x.timestamp hour)) p)

  -- `HasExistedWithin` is true at an instant exactly when the instant lies in the window that
  -- begins with some matching event, for any duration of the window.
  pub held-has_existed_within :
      (events : EventTimeline) (condition : String) (window : Duration) (t : Time)
      → held true (has_existed_within events condition window) t
        ≡ any (matched_within condition window t) events
  unfolding has_existed_within
  held-has_existed_within [] condition window t = refl
  held-has_existed_within (e ∷ events) condition window t =
      within_times-held window _ t
      ∙ matching_loop-any condition (λ u. leb u t && ltb t (add u window)) [] _
      ∙ any-perm (matched_within condition window t)
          (s.sort-perm Event (λ x. x.timestamp) (e ∷ events))

  -- For a positive window the intervals of `HasExistedWithin` are true, not empty, in order, and
  -- with a gap between any two.
  pub has_existed_within-IsCanonical :
      (events : EventTimeline) (condition : String) (w : ℕ)
      → 0 < w
      → IsCanonical (has_existed_within events condition (pos w))
  unfolding has_existed_within
  has_existed_within-IsCanonical [] condition w h = tt
  has_existed_within-IsCanonical (e ∷ events) condition w h = within_times-IsCanonical w _ h
