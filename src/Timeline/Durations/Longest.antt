-- ===== src/Timeline/Durations/Longest.antt =====
-- What `LongestConsecutiveTrueDuration` finds.
use go_temporal_timeline.Prelude.{
  ℕ, ◌+◌, ◌≤◌, ◌<◌, ◌≡◌, ◌⊎◌, inl, inr, ◌∙◌, sym, refl, true, ◌&&◌, List, [], ◌∷◌, arith, if_intro,
}
use mathlib.Core.Path.{subst}
use mathlib.Core.List.{Memᴰ}
use go_temporal_timeline.Prelude.Int.{pos, ◌≤ℤ◌, leb_ℤ, ltb_ℤ}
use go_temporal_timeline.GoTime.{Time, Duration, sub, max_duration}
use go_temporal_timeline.Timeline.Types.{BoolInterval, BoolTimeline}
use go_temporal_timeline.Timeline.Held.{held, IsCanonical, held-Separated}
use go_temporal_timeline.Timeline.Merge.Unique.{Separated-IsCanonical}
use native.Mathlib.Decide.{dec_lt}
use go_temporal_timeline.Timeline.Durations.{
  interval_duration, min_duration, longest_step, longest_loop, longest_duration,
}

-- A true interval that meets the minimum.
pub record IsCandidate (min : Duration) (i : BoolInterval) : Type 0 where
  pub is_true : i.value ≡ true
  pub long_enough : min ≤ℤ interval_duration i

longest_step-upper :
    (min best : Duration) (i : BoolInterval)
    → (best ≤ℤ longest_step min best i)
      × (IsCandidate min i → interval_duration i ≤ℤ longest_step min best i)
unfolding longest_step
longest_step-upper min best i = (ground arith, λ c. ground (arith, c.is_true, c.long_enough))

≤ℤ_trans : (a b c : Duration) → a ≤ℤ b → b ≤ℤ c → a ≤ℤ c
≤ℤ_trans a b c h k = omega arith

longest_loop-le : (min best : Duration) (tl : BoolTimeline) → best ≤ℤ longest_loop min best tl
unfolding longest_loop
longest_loop-le min best [] = omega arith
longest_loop-le min best (i ∷ is) =
    ≤ℤ_trans best (longest_step min best i) _ (longest_step-upper min best i).0
      (longest_loop-le min (longest_step min best i) is)

longest_loop-upper :
    (min best : Duration) (tl : BoolTimeline) (i : BoolInterval)
    → Memᴰ i tl
    → IsCandidate min i
    → interval_duration i ≤ℤ longest_loop min best tl
unfolding longest_loop
longest_loop-upper min best [] i m c = elim m [ ]
longest_loop-upper min best (j ∷ js) i (Memᴰ.head e) c =
    subst (λ x. interval_duration x ≤ℤ longest_loop min (longest_step min best j) js) (sym e)
      (≤ℤ_trans (interval_duration j) (longest_step min best j) _
        ((longest_step-upper min best j).1 (subst (IsCandidate min) e c))
        (longest_loop-le min (longest_step min best j) js))
longest_loop-upper min best (j ∷ js) i (Memᴰ.tail m) c =
    longest_loop-upper min (longest_step min best j) js i m c

-- The duration is that of some true interval that meets the minimum.
abbrev pub Attained : Duration → BoolTimeline → Duration → Type 0
Attained min tl d = (i : BoolInterval) × Memᴰ i tl × IsCandidate min i × (interval_duration i ≡ d)

longest_step-Attained :
    (min best : Duration) (i : BoolInterval)
    → (longest_step min best i ≡ best)
      ⊎ (IsCandidate min i × (interval_duration i ≡ longest_step min best i))
unfolding longest_step
longest_step-Attained min best i =
    if_intro Outcome i.value
      (λ v.
        if_intro Outcome (leb_ℤ min (interval_duration i) && ltb_ℤ best (interval_duration i))
          (λ e. inr (record { is_true = v; long_enough = ground (arith, e) }, refl))
          (λ _. inl refl))
      (λ _. inl refl)
  where
    Outcome : Duration → Type 0
    Outcome d = (d ≡ best) ⊎ (IsCandidate min i × (interval_duration i ≡ d))

longest_loop-Attained :
    (min best : Duration) (tl : BoolTimeline)
    → (longest_loop min best tl ≡ best) ⊎ Attained min tl (longest_loop min best tl)
unfolding longest_loop
longest_loop-Attained min best [] = inl refl
longest_loop-Attained min best (i ∷ is) =
    elim (longest_loop-Attained min (longest_step min best i) is) [
      | inr (j, m, c, e) ↦ inr (j, Memᴰ.tail m, c, e)
      | inl e ↦ elim (longest_step-Attained min best i) [
        | inl same ↦ inl (e ∙ same)
        | inr (c, d) ↦ inr (i, Memᴰ.head refl, c, d ∙ sym e)
      ]
    ]

-- `maxDuration` is at least the length of every true interval that meets the minimum, and it is
-- the length of such an interval, or zero.
pub longest_duration_lem :
    (tl : BoolTimeline) (ds : List Duration)
    → ((i : BoolInterval)
        → Memᴰ i tl
        → IsCandidate (min_duration ds) i
        → interval_duration i ≤ℤ longest_duration tl ds)
      × ((longest_duration tl ds ≡ pos 0) ⊎ Attained (min_duration ds) tl (longest_duration tl ds))
unfolding longest_duration
longest_duration_lem tl ds = (
  longest_loop-upper (min_duration ds) (pos 0) tl,
  longest_loop-Attained (min_duration ds) (pos 0) tl,
)

-- Every instant from `s` on, `n` of them, is true.
abbrev pub TrueRun : BoolTimeline → Time → ℕ → Type 0
TrueRun tl s n = (t : Time) → s ≤ t → t < s + n → held true tl t ≡ true

run_within :
    (tl : BoolTimeline) (s : Time) (n : ℕ)
    → IsCanonical tl
    → 0 < n
    → TrueRun tl s n
    → (i : BoolInterval) × Memᴰ i tl × (i.value ≡ true) × (i.start ≤ s) × (s + n ≤ i.end)
run_within [] s n c h run = absurd (ground (arith, run s (omega arith) (omega arith)))
run_within (i ∷ is) s n c h run = elim (dec_lt s i.end) [
  | yes inside ↦ (
    i,
    Memᴰ.head refl,
    c.0.is_true,
    ground (arith, run s, held-Separated i.end s is c.1),
    ground (arith, run i.end, held-Separated i.end i.end is c.1),
  )
  | no past ↦
      let found =
        run_within is s n (Separated-IsCanonical i.end is c.1) h
          (λ t le lt. ground (arith, run t le lt)) in
      (found.0, Memᴰ.tail found.1, found.2, found.3, found.4)
]

sub-at_least : (t u : Time) (n : ℕ) → u + n ≤ t → n ≤ max_duration → pos n ≤ℤ sub t u
unfolding sub
sub-at_least t u n h k = ground arith

-- No stretch of true instants is longer than what `LongestConsecutiveTrueDuration` finds: for a
-- canonical timeline, `n` true instants in a row, where `n` meets the minimum and fits a duration,
-- are at most `maxDuration`.
pub TrueRun-le-longest_duration :
    (tl : BoolTimeline) (ds : List Duration) (s : Time) (n : ℕ)
    → IsCanonical tl
    → 0 < n
    → n ≤ max_duration
    → min_duration ds ≤ℤ pos n
    → TrueRun tl s n
    → pos n ≤ℤ longest_duration tl ds
TrueRun-le-longest_duration tl ds s n c h small enough run =
    let found = run_within tl s n c h run in
    let i = found.0 in
    let le : pos n ≤ℤ interval_duration i =
      sub-at_least i.end i.start n (omega (arith, found.3, found.4)) small in
    ≤ℤ_trans (pos n) (interval_duration i) _ le (
      (longest_duration_lem tl ds).0 i found.1 (record {
        is_true = found.2;
        long_enough = ≤ℤ_trans (min_duration ds) (pos n) (interval_duration i) enough le;
      }))
