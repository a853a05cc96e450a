-- ===== src/Examples/Windows.antt =====
-- The windows.
use go_temporal_timeline.Prelude.{
  ◌+◌, ◌≡◌, refl, true, ◌&&◌, List, [], ◌∷◌, arith, any, map, leb, ltb, some, none, if◌then◌else◌,
}
use go_temporal_timeline.Prelude.Int.{pos, negsuc}
use go_temporal_timeline.GoTime.{Time}
use go_temporal_timeline.GoSort.Insertion.{insertion_sort, insertion_sorter}
use go_temporal_timeline.Timeline.Held.{held, IsCanonical}
use go_temporal_timeline.Timeline.Events.{has_existed_within}
use go_temporal_timeline.Timeline.Windows.{
  Window, in_window, create_tumbling_windows, create_sliding_windows, create_session_windows,
}
use go_temporal_timeline.Timeline.Windows.Cover.{
  times_in, between, create_tumbling_windows-partition, create_windows-diverge,
  create_sliding_windows-cover,
}
use go_temporal_timeline.Timeline.Windows.Session.{
  as_interval, create_session_windows_lem, create_session_windows-eq-has_existed_within,
}
use go_temporal_timeline.Examples.Samples.{on, event}

create_tumbling_windows-partition_example :
    (ws : List Window) × (create_tumbling_windows 100 5 18 (pos 4) ≡ some ws)
    × ((t : Time) → times_in t ws ≡ (if between 5 18 t then 1 else 0))
create_tumbling_windows-partition_example =
    create_tumbling_windows-partition 100 5 18 4 (omega arith) (omega arith)

create_windows-diverge_example :
    (create_tumbling_windows 50 5 18 (negsuc 2) ≡ none)
    × (create_sliding_windows 50 5 18 (pos 4) (negsuc 2) ≡ none)
create_windows-diverge_example =
    create_windows-diverge 5 18 (pos 4) (negsuc 2) (omega arith) (omega arith) 50

create_sliding_windows-cover_example :
    (ws : List Window) × (create_sliding_windows 100 5 18 (pos 4) (pos 3) ≡ some ws)
    × ((t : Time) → any (in_window t) ws ≡ between 5 18 t)
create_sliding_windows-cover_example =
    create_sliding_windows-cover 100 5 18 4 3 (omega arith) (omega arith) (omega arith)

abbrev visits : List Time
visits = 20 ∷ 3 ∷ 5 ∷ 24 ∷ []

sessions-visits : map as_interval (create_session_windows visits (pos 5)) ≡ on 3 10 ∷ on 20 29 ∷ []
unfolding create_session_windows insertion_sort
sessions-visits = refl

create_session_windows_lem_example :
    let sessions = map as_interval (create_session_windows visits (pos 5)) in
    IsCanonical sessions
    × ((t : Time) → held true sessions t ≡ any (λ u. leb u t && ltb t (u + 5)) visits)
create_session_windows_lem_example = create_session_windows_lem visits 5 (omega arith) (omega arith)

create_session_windows-eq-has_existed_within_example :
    map as_interval (
      create_session_windows
        (map (λ e. e.timestamp) (event 4 "true" ∷ event 2 "true" ∷ event 30 "true" ∷ []))
        (pos 6))
    ≡ has_existed_within (event 4 "true" ∷ event 2 "true" ∷ event 30 "true" ∷ []) "true" (pos 6)
create_session_windows-eq-has_existed_within_example =
    create_session_windows-eq-has_existed_within
      (event 4 "true" ∷ event 2 "true" ∷ event 30 "true" ∷ []) "true" 6 (omega arith) (omega arith)
      (refl, (refl, (refl, tt)))
