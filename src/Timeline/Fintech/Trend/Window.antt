-- ===== src/Timeline/Fintech/Trend/Window.antt =====
-- How far `RSI` reaches.
use go_temporal_timeline.Prelude.{◌≡◌, refl, ap, ◌∙◌, ◌≤◌, false, [], ◌∷◌, ◌++◌, arith, All}
use go_temporal_timeline.GoTime.{Time, Duration, after}
use go_temporal_timeline.GoFloat.{FloatOps}
use go_temporal_timeline.Timeline.Types.{NumericValue, PriceTimeline}
use go_temporal_timeline.Timeline.Aggregations.Moving.{window_start}
use go_temporal_timeline.Timeline.Fintech.Types.{FinancialTimeline}
use go_temporal_timeline.Timeline.Fintech.Trend.{Changes, changes_loop, rsi_append, rsi_rounds}

module _ ⦃f : FloatOps⦄ where
  abbrev no_changes : Changes
  no_changes = record { gains = []; losses = [] }

  not_after : (t start : Time) → t ≤ start → after t start ≡ false
  not_after t start h = ground (arith, h)

  changes_loop-no_changes :
      (start : Time) (first second : NumericValue) (vs : PriceTimeline)
      → second.timestamp ≤ start
      → changes_loop start no_changes first (second ∷ vs) ≡ no_changes
  unfolding changes_loop
  changes_loop-no_changes start first second vs h =
      rw (not_after second.timestamp start h, changes_loop) refl

  -- `RSI` reports nothing more once the second value of the sorted timeline has left the window:
  -- its loop adds nothing to the results for a rest of the timeline in which every window starts at
  -- or after the second value, whatever stands between.
  pub rsi_rounds-stop :
      (results : FinancialTimeline) (first second : NumericValue) (earlier rest : PriceTimeline)
      (window : Duration)
      → All (λ v. second.timestamp ≤ window_start v window) rest
      → rsi_rounds results first (second ∷ earlier) rest window ≡ results
  unfolding rsi_rounds rsi_append
  rsi_rounds-stop results first second earlier [] window h = refl
  rsi_rounds-stop results first second earlier (v ∷ rest) window h =
      ap
        (λ c.
          rsi_rounds (rsi_append results c v window) first (second ∷ earlier ++ v ∷ []) rest window)
        (changes_loop-no_changes (window_start v window) first second (earlier ++ v ∷ []) h.0)
      ∙ rsi_rounds-stop results first second (earlier ++ v ∷ []) rest window h.1
