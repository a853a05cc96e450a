-- ===== src/Timeline/Durations/Total.antt =====
-- `DurationWhere` is the number of instants at which a canonical timeline is true.
use go_temporal_timeline.Prelude.{
  ℕ, zero, suc, ◌+◌, ◌-◌, ◌≤◌, ◌≡◌, ◌∙◌, ap, refl, min, Bool, true, false, ◌&&◌, ◌||◌, [], ◌∷◌,
  arith, All, if◌then◌else◌,
}
use go_temporal_timeline.Prelude.Int.{pos}
use go_temporal_timeline.GoTime.{Time, max_duration, sub-of_le, add_duration-pos}
use go_temporal_timeline.Timeline.Types.{BoolInterval, BoolTimeline}
use go_temporal_timeline.Timeline.Held.{covers, held, IsCanonical, held-Separated}
use go_temporal_timeline.Timeline.Merge.Unique.{Separated-IsCanonical}
use go_temporal_timeline.Timeline.Durations.{duration_loop, duration_where}

-- How many instants before `n` pass the test.
pub count_below : ℕ → (Time → Bool) → ℕ
count_below zero p = 0
count_below (suc n) p = (if p n then 1 else 0) + count_below n p

abbrev pub total_length : BoolTimeline → ℕ
total_length [] = 0
total_length (i ∷ is) = i.end - i.start + total_length is

count_below-covers :
    (n : ℕ) (i : BoolInterval)
    → i.start ≤ i.end
    → count_below n (covers i) + min n i.start ≡ min n i.end
unfolding count_below
count_below-covers zero i h = omega arith
count_below-covers (suc n) i h = ground (arith, count_below-covers n i h)

count_below-or :
    (n : ℕ) (p q r : Time → Bool)
    → ((t : Time) → r t ≡ (p t || q t))
    → ((t : Time) → (p t && q t) ≡ false)
    → count_below n r ≡ count_below n p + count_below n q
unfolding count_below
count_below-or zero p q r h k = refl
count_below-or (suc n) p q r h k = ground (arith, count_below-or n p q r h k, h n, k n)

count_below-none : (n : ℕ) (p : Time → Bool) → ((t : Time) → p t ≡ false) → count_below n p ≡ 0
unfolding count_below
count_below-none zero p h = refl
count_below-none (suc n) p h = ground (arith, count_below-none n p h, h n)

count_below-held :
    (n : ℕ) (tl : BoolTimeline)
    → IsCanonical tl
    → All (λ i. i.end ≤ n) tl
    → count_below n (held true tl) ≡ total_length tl
count_below-held n [] c h = count_below-none n (held true []) (λ t. refl)
count_below-held n (i ∷ is) c h = omega (
  arith,
  count_below-held n is (Separated-IsCanonical i.end is c.1) h.1,
  count_below-covers n i (ground (arith, c.0.nonempty)),
  h.0,
  c.0.nonempty,
  count_below-or n (covers i) (held true is) (held true (i ∷ is)) (λ t. ground (arith, c.0.is_true))
      (λ t. ground (arith, held-Separated i.end t is c.1)),
)

duration_loop-total :
    (k : ℕ) (tl : BoolTimeline)
    → IsCanonical tl
    → k + total_length tl ≤ max_duration
    → duration_loop (pos k) tl ≡ pos (k + total_length tl)
unfolding duration_loop
duration_loop-total k [] c h = ground arith
duration_loop-total k (i ∷ is) c h =
    let n = i.end - i.start in
    ground (
      arith,
      c.0.is_true,
      c.0.nonempty,
      sub-of_le i.end i.start,
      add_duration-pos k n,
      duration_loop-total (k + n) is (Separated-IsCanonical i.end is c.1),
    )

-- `DurationWhere` of a canonical timeline is the number of nanoseconds at which it is true,
-- counted one by one below any bound on the ends of its intervals, if that total fits the signed
-- 64 bits of a duration.
pub duration_where-count_below :
    (bound : ℕ) (tl : BoolTimeline)
    → IsCanonical tl
    → All (λ i. i.end ≤ bound) tl
    → total_length tl ≤ max_duration
    → duration_where tl ≡ pos (count_below bound (held true tl))
unfolding duration_where
duration_where-count_below bound tl c h small =
    duration_loop-total 0 tl c (omega arith) ∙ ap pos (omega (arith, count_below-held bound tl c h))
