-- ===== src/Timeline/Combine/Complement.antt =====
-- What `NOT` says of each instant, for a timeline whose true intervals are in order.
use go_temporal_timeline.Prelude.{
  ◌≤◌, ◌<◌, ◌≡◌, ◌∙◌, sym, ap, refl, true, false, not, ◌&&◌, ◌||◌, [], ◌∷◌, arith, ltb, leb, any,
  All, any-append, All-append, All-map, if_intro, if◌then◌else◌, Bool-cases, inl, inr,
}
use mathlib.Core.Path.{subst}
use go_temporal_timeline.GoTime.{Time, before}
use go_temporal_timeline.Timeline.Types.{BoolInterval, BoolTimeline}
use go_temporal_timeline.Timeline.Held.{shows, held}
use go_temporal_timeline.Timeline.Combine.{
  Range, widen, range_loop, NotState, gap, not_step, not_loop, not_within, timeline_not,
}

-- The true intervals begin in order, none before the one in front of it has ended, and each ends
-- no earlier than it begins. Intervals that are false are free.
abbrev pub TrueInOrder : Time → BoolTimeline → Type 0
TrueInOrder e [] = Unit
TrueInOrder e (i ∷ is) =
    (i.value ≡ true → (e ≤ i.start) × (i.start ≤ i.end))
    × TrueInOrder (if i.value then i.end else e) is

-- Nothing that is still to come is true before the end of the last true interval.
TrueInOrder-held :
    (e t : Time) (is : BoolTimeline) → TrueInOrder e is → t < e → held true is t ≡ false
TrueInOrder-held e t [] h lt = refl
TrueInOrder-held e t (i ∷ is) h lt =
    ground (arith, h.0, TrueInOrder-held (if i.value then i.end else e) t is h.1)

gap-held :
    (s : NotState) (m t : Time)
    → held false (gap s m) t ≡ (held false s.result t || (leb s.current_time t && ltb t m))
gap-held s m t = ground (
  arith,
  any-append (shows false t) s.result
      (record { value = false; start = s.current_time; end = m } ∷ []),
)

not_step-true :
    (s : NotState) (i : BoolInterval)
    → i.value ≡ true
    → not_step s i ≡ record { current_time = i.end; result = gap s i.start }
unfolding not_step
not_step-true s i e = rw e

not_step-false : (s : NotState) (i : BoolInterval) → i.value ≡ false → not_step s i ≡ s
unfolding not_step
not_step-false s i e = rw e

order_true :
    (e : Time) (i : BoolInterval) (is : BoolTimeline)
    → i.value ≡ true
    → TrueInOrder e (i ∷ is)
    → TrueInOrder i.end is
order_true e i is v h = subst (λ b. TrueInOrder (if b then i.end else e) is) v h.1

order_false :
    (e : Time) (i : BoolInterval) (is : BoolTimeline)
    → i.value ≡ false
    → TrueInOrder e (i ∷ is)
    → TrueInOrder e is
order_false e i is v h = subst (λ b. TrueInOrder (if b then i.end else e) is) v h.1

-- The loop and the interval that `NOT` adds behind it, up to the time `m`.
not_loop-held :
    (s : NotState) (m t : Time) (is : BoolTimeline)
    → TrueInOrder s.current_time is
    → All (λ i. i.end ≤ m) is
    → held false (gap (not_loop s is) m) t
      ≡ (held false s.result t || (leb s.current_time t && ltb t m && not (held true is t)))
unfolding not_loop
not_loop-held s m t [] h ends = ground (arith, gap-held s m t)
not_loop-held s m t (i ∷ is) h ends = elim (Bool-cases i.value) [
  | inl e ↦
      let next : NotState = record { current_time = i.end; result = gap s i.start } in
      let rest = order_true s.current_time i is e h in
      ap (λ n. held false (gap (not_loop n is) m) t) (not_step-true s i e)
      ∙ (ground (
        arith,
        not_loop-held next m t is rest ends.1,
        gap-held s i.start t,
        h.0 e,
        ends.0,
        TrueInOrder-held i.end t is rest,
      ))
  | inr e ↦
      ap (λ n. held false (gap (not_loop n is) m) t) (not_step-false s i e)
      ∙ (ground (arith, not_loop-held s m t is (order_false s.current_time i is e h) ends.1))
]

range_loop-min :
    (r : Range) (is : BoolTimeline) (t : Time)
    → leb (range_loop r is).min_time t ≡ (leb r.min_time t || any (λ i. leb i.start t) is)
unfolding range_loop widen
range_loop-min r [] t = ground arith
range_loop-min r (i ∷ is) t = ground (arith, range_loop-min (widen r i) is t)

range_loop-max :
    (r : Range) (is : BoolTimeline) (t : Time)
    → ltb t (range_loop r is).max_time ≡ (ltb t r.max_time || any (λ i. ltb t i.end) is)
unfolding range_loop widen
range_loop-max r [] t = ground arith
range_loop-max r (i ∷ is) t = ground (arith, range_loop-max (widen r i) is t)

widen_bounds :
    (r : Range) (i : BoolInterval)
    → ((widen r i).min_time ≤ r.min_time)
      × (r.max_time ≤ (widen r i).max_time)
      × ((widen r i).min_time ≤ i.start)
      × (i.end ≤ (widen r i).max_time)
unfolding widen
widen_bounds r i = ground arith

range_loop_bounds :
    (r : Range) (is : BoolTimeline)
    → ((range_loop r is).min_time ≤ r.min_time) × (r.max_time ≤ (range_loop r is).max_time)
unfolding range_loop
range_loop_bounds r [] = omega arith
range_loop_bounds r (i ∷ is) = omega (arith, range_loop_bounds (widen r i) is, widen_bounds r i)

range_loop-All :
    (r : Range) (is : BoolTimeline)
    → All (λ i. ((range_loop r is).min_time ≤ i.start) × (i.end ≤ (range_loop r is).max_time)) is
unfolding range_loop
range_loop-All r [] = tt
range_loop-All r (i ∷ is) = (
  omega (arith, range_loop_bounds (widen r i) is, widen_bounds r i),
  range_loop-All (widen r i) is,
)

-- An earlier bound before the first true interval.
TrueInOrder-lower :
    (e m : Time) (is : BoolTimeline)
    → TrueInOrder e is
    → All (λ i. m ≤ i.start) is
    → TrueInOrder m is
TrueInOrder-lower e m [] h k = tt
TrueInOrder-lower e m (i ∷ is) h k = elim (Bool-cases i.value) [
  | inl v ↦ (
    λ _. (k.0, (h.0 v).1),
    subst (λ b. TrueInOrder (if b then i.end else m) is) (sym v) (order_true e i is v h),
  )
  | inr v ↦ (
    λ w. (k.0, (h.0 w).1),
    subst (λ b. TrueInOrder (if b then i.end else m) is) (sym v)
        (TrueInOrder-lower e m is (order_false e i is v h) k.1),
  )
]

-- For a timeline whose true intervals are in order and do not overlap, `NOT` shows false at
-- exactly the instants that lie between the earliest start and the latest end of its intervals
-- and at which the timeline is not true.
pub held-timeline_not :
    (tl : BoolTimeline) (t : Time)
    → TrueInOrder 0 tl
    → held false (timeline_not tl) t
      ≡ (any (λ i. leb i.start t) tl && any (λ i. ltb t i.end) tl && not (held true tl t))
unfolding timeline_not not_within
held-timeline_not [] t h = refl
held-timeline_not (i ∷ is) t h =
    let first : Range = record { min_time = i.start; max_time = i.end } in
    let r = range_loop first (i ∷ is) in
    let all = range_loop-All first (i ∷ is) in
    ground (
      arith,
      not_loop-held (record { current_time = r.min_time; result = [] }) r.max_time t (i ∷ is)
          (TrueInOrder-lower 0 r.min_time (i ∷ is) h (All-map (λ _ b. b.0) (i ∷ is) all))
          (All-map (λ _ b. b.1) (i ∷ is) all),
      range_loop-min first (i ∷ is) t,
      range_loop-max first (i ∷ is) t,
    )

gap-All-false :
    (s : NotState) (m : Time)
    → All (λ i. i.value ≡ false) s.result
    → All (λ i. i.value ≡ false) (gap s m)
gap-All-false s m h =
    if_intro (All (λ i. i.value ≡ false)) (before s.current_time m)
      (λ _. All-append (λ i. i.value ≡ false) s.result _ h (refl, tt)) (λ _. h)

not_loop-All-false :
    (s : NotState) (is : BoolTimeline)
    → All (λ i. i.value ≡ false) s.result
    → All (λ i. i.value ≡ false) (not_loop s is).result
unfolding not_loop not_step
not_loop-All-false s [] h = h
not_loop-All-false s (i ∷ is) h = not_loop-All-false (not_step s i) is (
    if_intro (λ (n : NotState). All (λ j. j.value ≡ false) n.result) i.value
      (λ _. gap-All-false s i.start h) (λ _. h))

-- `NOT` never returns a true interval, whatever it is given.
pub timeline_not-All-false : (tl : BoolTimeline) → All (λ i. i.value ≡ false) (timeline_not tl)
unfolding timeline_not not_within
timeline_not-All-false [] = tt
timeline_not-All-false (i ∷ is) =
    let r = range_loop (record { min_time = i.start; max_time = i.end }) (i ∷ is) in
    let s : NotState = record { current_time = r.min_time; result = [] } in
    gap-All-false (not_loop s (i ∷ is)) r.max_time (not_loop-All-false s (i ∷ is) tt)

pub All-false-held :
    (tl : BoolTimeline) (t : Time) → All (λ i. i.value ≡ false) tl → held true tl t ≡ false
All-false-held [] t h = refl
All-false-held (i ∷ is) t h = ground (arith, h.0, All-false-held is t h.1)
