-- ===== src/Timeline/Windows/Cover.antt =====
-- `CreateTumblingWindows` and `CreateSlidingWindows`: when the loops end, and which instants
-- their windows cover.
use go_temporal_timeline.Prelude.{
  ℕ, zero, suc, ◌+◌, ◌-◌, ◌≤◌, ◌<◌, ◌≡◌, refl, Bool, ◌&&◌, ◌||◌, List, [], ◌∷◌, ◌++◌, arith, ltb,
  leb, none, some, any, any-append, if◌then◌else◌, Bool-cases, inl, inr, lt→ltb,
}
use go_temporal_timeline.Prelude.Int.{pos, ◌≤ℤ◌}
use go_temporal_timeline.GoTime.{Time, Duration, before, add}
use go_temporal_timeline.Timeline.Windows.{
  Window, empty_window, tumbling_window, sliding_window, window_end, in_window, tumbling_loop,
  sliding_loop, create_tumbling_windows, create_sliding_windows,
}

-- How many of the windows hold the instant.
abbrev pub times_in : Time → List Window → ℕ
times_in t [] = 0
times_in t (w ∷ ws) = (if in_window t w then 1 else 0) + times_in t ws

times_in-append :
    (t : Time) (ws vs : List Window) → times_in t (ws ++ vs) ≡ times_in t ws + times_in t vs
times_in-append t [] vs = omega arith
times_in-append t (w ∷ ws) vs = omega (arith, times_in-append t ws vs)

abbrev pub between : Time → Time → Time → Bool
between start end t = leb start t && ltb t end

tumbling_loop-covers :
    (fuel : ℕ) (windows : List Window) (current end : Time) (w : ℕ)
    → 0 < w
    → end - current < fuel
    → (ws : List Window) × (tumbling_loop fuel windows current end (pos w) ≡ some ws)
      × ((t : Time) → times_in t ws ≡ times_in t windows + (if between current end t then 1 else 0))
unfolding tumbling_loop
tumbling_loop-covers zero windows current end w h f = absurd (omega arith)
tumbling_loop-covers (suc fuel) windows current end w h f = elim (Bool-cases (before current end)) [
  | inr done ↦ (windows, rw (done, tumbling_loop), λ t. ground arith)
  | inl more ↦
      let next = window_end current end (pos w) in
      let win : Window = record empty_window {
        type = tumbling_window;
        size = pos w;
        start = current;
        end = next;
      } in
      let r = tumbling_loop-covers fuel (windows ++ win ∷ []) next end w h (ground arith) in
      (
        r.0,
        rw (more, tumbling_loop) r.1,
        λ t. ground (arith, r.2 t, times_in-append t windows (win ∷ [])),
      )
]

-- With a positive size and more fuel than the length of the range in nanoseconds,
-- `CreateTumblingWindows` returns, and every instant of the range lies in exactly one window, every
-- other instant in none.
pub create_tumbling_windows-partition :
    (fuel : ℕ) (start end : Time) (w : ℕ)
    → 0 < w
    → end - start < fuel
    → (ws : List Window) × (create_tumbling_windows fuel start end (pos w) ≡ some ws)
      × ((t : Time) → times_in t ws ≡ (if between start end t then 1 else 0))
unfolding create_tumbling_windows
create_tumbling_windows-partition fuel start end w h f =
    let r = tumbling_loop-covers fuel [] start end w h f in (r.0, r.1, λ t. ground (arith, r.2 t))

add-le : (t : Time) (d : Duration) → d ≤ℤ pos 0 → add t d ≤ t
add-le t d h = ground arith

tumbling_loop-stuck :
    (fuel : ℕ) (windows : List Window) (current end : Time) (size : Duration)
    → size ≤ℤ pos 0
    → current < end
    → tumbling_loop fuel windows current end size ≡ none
unfolding tumbling_loop
tumbling_loop-stuck zero windows current end size h lt = refl
tumbling_loop-stuck (suc fuel) windows current end size h lt =
    rw (lt→ltb current end lt, tumbling_loop)
      (tumbling_loop-stuck fuel _ (window_end current end size) end size h
        (ground (arith, add-le current size h)))

sliding_loop-stuck :
    (fuel : ℕ) (windows : List Window) (current end : Time) (size slide : Duration)
    → slide ≤ℤ pos 0
    → current < end
    → sliding_loop fuel windows current end size slide ≡ none
unfolding sliding_loop
sliding_loop-stuck zero windows current end size slide h lt = refl
sliding_loop-stuck (suc fuel) windows current end size slide h lt =
    rw (lt→ltb current end lt, sliding_loop)
      (sliding_loop-stuck fuel _ (add current slide) end size slide h
        (omega (arith, add-le current slide h)))

-- On a range that is not empty neither loop ever ends if its step is not positive: the size for
-- `CreateTumblingWindows`, the slide for `CreateSlidingWindows`. No fuel is enough.
pub create_windows-diverge :
    (start end : Time) (size step : Duration)
    → start < end
    → step ≤ℤ pos 0
    → (fuel : ℕ)
    → (create_tumbling_windows fuel start end step ≡ none)
      × (create_sliding_windows fuel start end size step ≡ none)
unfolding create_tumbling_windows create_sliding_windows
create_windows-diverge start end size step lt h fuel = (
  tumbling_loop-stuck fuel [] start end step h lt,
  sliding_loop-stuck fuel [] start end size step h lt,
)

sliding_loop-covers :
    (fuel : ℕ) (windows : List Window) (current end : Time) (w s : ℕ)
    → 0 < s
    → s ≤ w
    → end - current < fuel
    → (ws : List Window) × (sliding_loop fuel windows current end (pos w) (pos s) ≡ some ws)
      × ((t : Time) → any (in_window t) ws ≡ (any (in_window t) windows || between current end t))
unfolding sliding_loop
sliding_loop-covers zero windows current end w s h k f = absurd (omega arith)
sliding_loop-covers (suc fuel) windows current end w s h k f =
    elim (Bool-cases (before current end)) [
      | inr done ↦ (windows, rw (done, sliding_loop), λ t. ground arith)
      | inl more ↦
          let win : Window = record empty_window {
            type = sliding_window;
            size = pos w;
            slide = pos s;
            start = current;
            end = window_end current end (pos w);
          } in
          let r =
            sliding_loop-covers fuel (windows ++ win ∷ []) (current + s) end w s h k
              (ground arith) in
          (
            r.0,
            rw (more, sliding_loop) r.1,
            λ t. ground (arith, r.2 t, any-append (in_window t) windows (win ∷ [])),
          )
    ]

-- With a positive slide that is at most the size, and more fuel than the length of the range,
-- `CreateSlidingWindows` returns, and an instant lies in one of its windows exactly when it lies in
-- the range.
pub create_sliding_windows-cover :
    (fuel : ℕ) (start end : Time) (size slide : ℕ)
    → 0 < slide
    → slide ≤ size
    → end - start < fuel
    → (ws : List Window) × (create_sliding_windows fuel start end (pos size) (pos slide) ≡ some ws)
      × ((t : Time) → any (in_window t) ws ≡ between start end t)
unfolding create_sliding_windows
create_sliding_windows-cover fuel start end size slide h k f =
    let r = sliding_loop-covers fuel [] start end size slide h k f in (r.0, r.1, λ t. r.2 t)
