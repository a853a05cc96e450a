-- ===== src/Timeline/Windows/Session.antt =====
-- What `CreateSessionWindows` returns, and that it is what `HasExistedWithin` returns.
use go_temporal_timeline.Prelude.{
  ℕ, ◌+◌, ◌≤◌, ◌<◌, ◌≡◌, ◌∙◌, sym, ap, refl, Bool, true, false, ◌&&◌, ◌||◌, List, [], ◌∷◌, ◌++◌,
  arith, ltb, leb, map, append_assoc, any, any-perm, All, if◌then◌else◌, if_intro, Bool-cases, inl,
  inr, String, str_eq,
}
use go_temporal_timeline.Prelude.Int.{pos, ltb_ℤ}
use mathlib.Core.Path.{subst}
use mathlib.Core.List.{map-append}
use go_temporal_timeline.GoTime.{Time, Duration, sub, max_duration}
use go_temporal_timeline.GoSort.{Sorter, IsAscending}
use go_temporal_timeline.Timeline.Types.{EventTimeline, BoolInterval, BoolTimeline}
use go_temporal_timeline.Timeline.Held.{held, Separated, IsCanonical}
use go_temporal_timeline.Timeline.Merge.Unique.{IsCanonical-eq}
use go_temporal_timeline.Timeline.Events.{has_existed_within}
use go_temporal_timeline.Timeline.Events.Existed.{
  held-has_existed_within, has_existed_within-IsCanonical,
}
use go_temporal_timeline.Timeline.Windows.{
  Window, SessionState, close_session, session_step, session_loop, sessions_sorted,
  create_session_windows,
}

-- A window as a true interval.
abbrev pub as_interval : Window → BoolInterval
as_interval w = record { value = true; start = w.start; end = w.end }

-- The windows that the loop still adds, as true intervals.
sessions_from : ℕ → Time → Time → List Time → BoolTimeline
sessions_from w start last [] = record { value = true; start = start; end = last + w } ∷ []
sessions_from w start last (u ∷ us) =
    if ltb_ℤ (pos w) (sub u last)
    then record { value = true; start = start; end = last + w } ∷ sessions_from w u u us
    else sessions_from w start u us

step_far :
    (d : Duration) (s : SessionState) (u : Time)
    → ltb_ℤ d (sub u s.last_event) ≡ true
    → session_step d s u ≡ record { windows = close_session d s; session_start = u; last_event = u }
unfolding session_step
step_far d s u h = rw h

step_near :
    (d : Duration) (s : SessionState) (u : Time)
    → ltb_ℤ d (sub u s.last_event) ≡ false
    → session_step d s u ≡ record s { last_event = u }
unfolding session_step
step_near d s u h = rw h

sessions_far :
    (w start last u : ℕ) (us : List Time)
    → ltb_ℤ (pos w) (sub u last) ≡ true
    → sessions_from w start last (u ∷ us)
      ≡ record { value = true; start = start; end = last + w } ∷ sessions_from w u u us
unfolding sessions_from
sessions_far w start last u us h = rw h

sessions_near :
    (w start last u : ℕ) (us : List Time)
    → ltb_ℤ (pos w) (sub u last) ≡ false
    → sessions_from w start last (u ∷ us) ≡ sessions_from w start u us
unfolding sessions_from
sessions_near w start last u us h = rw h

session_loop-sessions_from :
    (w : ℕ) (s : SessionState) (us : List Time)
    → map as_interval (close_session (pos w) (session_loop (pos w) s us))
      ≡ map as_interval s.windows ++ sessions_from w s.session_start s.last_event us
unfolding session_loop sessions_from
session_loop-sessions_from w s [] = map-append as_interval s.windows _
session_loop-sessions_from w s (u ∷ us) = elim (Bool-cases (ltb_ℤ (pos w) (sub u s.last_event))) [
  | inl far ↦
      let n : SessionState = record {
        windows = close_session (pos w) s;
        session_start = u;
        last_event = u;
      } in
      ap (λ n. map as_interval (close_session (pos w) (session_loop (pos w) n us)))
        (step_far (pos w) s u far)
      ∙ session_loop-sessions_from w n us
      ∙ ap (λ l. l ++ sessions_from w u u us) (map-append as_interval s.windows _)
      ∙ append_assoc (map as_interval s.windows) _ (sessions_from w u u us)
      ∙ ap (λ l. map as_interval s.windows ++ l)
          (sym (sessions_far w s.session_start s.last_event u us far))
  | inr near ↦
      ap (λ n. map as_interval (close_session (pos w) (session_loop (pos w) n us)))
        (step_near (pos w) s u near)
      ∙ session_loop-sessions_from w (record s { last_event = u }) us
      ∙ ap (λ l. map as_interval s.windows ++ l)
          (sym (sessions_near w s.session_start s.last_event u us near))
]

gap_exact :
    (w last u : ℕ) → w < max_duration → last ≤ u → ltb_ℤ (pos w) (sub u last) ≡ ltb (last + w) u
unfolding sub
gap_exact w last u h k = ground arith

sessions_from-held :
    (w start last : ℕ) (us : List Time) (t : Time)
    → w < max_duration
    → start ≤ last
    → IsAscending (λ u. u) (last ∷ us)
    → held true (sessions_from w start last us) t
      ≡ ((leb start t && ltb t (last + w)) || any (λ u. leb u t && ltb t (u + w)) us)
unfolding sessions_from
sessions_from-held w start last [] t h k a = ground arith
sessions_from-held w start last (u ∷ us) t h k a = ground (
  arith,
  gap_exact w last u h a.0.0,
  sessions_from-held w u u us t h (omega arith) a.1,
  sessions_from-held w start u us t h (omega (arith, a.0.0)) a.1,
  a.0.0,
)

sessions_from-Separated :
    (e w start last : ℕ) (us : List Time)
    → e < start
    → 0 < w
    → w < max_duration
    → start ≤ last
    → IsAscending (λ u. u) (last ∷ us)
    → Separated e (sessions_from w start last us)
unfolding sessions_from
sessions_from-Separated e w start last [] b p h k a =
    (b, record { is_true = refl; nonempty = omega arith }, tt)
sessions_from-Separated e w start last (u ∷ us) b p h k a =
    if_intro (Separated e) (ltb_ℤ (pos w) (sub u last))
      (λ far. (
        b,
        record { is_true = refl; nonempty = omega arith },
        sessions_from-Separated (last + w) w u u us (ground (arith, gap_exact w last u h a.0.0)) p h
            (omega arith) a.1,
      ))
      (λ near. sessions_from-Separated e w start u us b p h (omega (arith, a.0.0)) a.1)

sessions_from-IsCanonical :
    (w start last : ℕ) (us : List Time)
    → 0 < w
    → w < max_duration
    → start ≤ last
    → IsAscending (λ u. u) (last ∷ us)
    → IsCanonical (sessions_from w start last us)
unfolding sessions_from
sessions_from-IsCanonical w start last [] p h k a =
    (record { is_true = refl; nonempty = omega arith }, tt)
sessions_from-IsCanonical w start last (u ∷ us) p h k a =
    if_intro IsCanonical (ltb_ℤ (pos w) (sub u last))
      (λ far. (
        record { is_true = refl; nonempty = omega arith },
        sessions_from-Separated (last + w) w u u us (ground (arith, gap_exact w last u h a.0.0)) p h
            (omega arith) a.1,
      ))
      (λ near. sessions_from-IsCanonical w start u us p h (omega (arith, a.0.0)) a.1)

abbrev in_any : ℕ → Time → List Time → Bool
in_any w t us = any (λ u. leb u t && ltb t (u + w)) us

sessions_sorted-held :
    (w : ℕ) (us : List Time) (t : Time)
    → w < max_duration
    → IsAscending (λ u. u) us
    → held true (map as_interval (sessions_sorted (pos w) us)) t ≡ in_any w t us
unfolding sessions_sorted
sessions_sorted-held w [] t h a = refl
sessions_sorted-held w (u ∷ us) t h a =
    ap (λ l. held true l t)
      (session_loop-sessions_from w (record { windows = []; session_start = u; last_event = u }) us)
    ∙ sessions_from-held w u u us t h (omega arith) a

sessions_sorted-IsCanonical :
    (w : ℕ) (us : List Time)
    → 0 < w
    → w < max_duration
    → IsAscending (λ u. u) us
    → IsCanonical (map as_interval (sessions_sorted (pos w) us))
unfolding sessions_sorted
sessions_sorted-IsCanonical w [] p h a = tt
sessions_sorted-IsCanonical w (u ∷ us) p h a =
    subst IsCanonical
      (sym (
        session_loop-sessions_from w (record { windows = []; session_start = u; last_event = u })
          us))
      (sessions_from-IsCanonical w u u us p h (omega arith) a)

timestamps_any :
    (p : Time → Bool) (condition : String) (events : EventTimeline)
    → All (λ e. str_eq e.value condition ≡ true) events
    → any p (map (λ e. e.timestamp) events)
      ≡ any (λ e. str_eq e.value condition && p e.timestamp) events
timestamps_any p condition [] h = refl
timestamps_any p condition (e ∷ events) h =
    ground (arith, h.0, timestamps_any p condition events h.1)

module _ ⦃s : Sorter⦄ where
  -- The session windows of some instants are the windows of that length that begin with each of
  -- them, joined: an instant lies in a session exactly when it is less than the timeout after one
  -- of the events. The sessions are not empty, in order, and with a gap between any two. Both hold
  -- for a positive timeout below the longest duration.
  pub create_session_windows_lem :
      (events : List Time) (w : ℕ)
      → 0 < w
      → w < max_duration
      → let sessions = map as_interval (create_session_windows events (pos w)) in
        IsCanonical sessions
        × ((t : Time) → held true sessions t ≡ any (λ u. leb u t && ltb t (u + w)) events)
  unfolding create_session_windows
  create_session_windows_lem [] w p h = (tt, λ t. refl)
  create_session_windows_lem (e ∷ events) w p h =
      let a = s.sort-IsAscending Time (λ t. t) (e ∷ events) in
      (
        sessions_sorted-IsCanonical w _ p h a,
        λ t.
            sessions_sorted-held w _ t h a
            ∙ any-perm (λ u. leb u t && ltb t (u + w)) (s.sort-perm Time (λ t. t) (e ∷ events)),
      )

  -- Session windows and `HasExistedWithin` are one computation: for events that all match, the
  -- sessions of their timestamps, read as true intervals, are the list that `HasExistedWithin`
  -- returns with the timeout for its window.
  pub create_session_windows-eq-has_existed_within :
      (events : EventTimeline) (condition : String) (w : ℕ)
      → 0 < w
      → w < max_duration
      → All (λ e. str_eq e.value condition ≡ true) events
      → map as_interval (create_session_windows (map (λ e. e.timestamp) events) (pos w))
        ≡ has_existed_within events condition (pos w)
  create_session_windows-eq-has_existed_within events condition w p h all =
      let r = create_session_windows_lem (map (λ e. e.timestamp) events) w p h in
      IsCanonical-eq _ _ r.0 (has_existed_within-IsCanonical events condition w p) λ t.
        r.1 t
        ∙ timestamps_any (λ u. leb u t && ltb t (u + w)) condition events all
        ∙ sym (held-has_existed_within events condition (pos w) t)
