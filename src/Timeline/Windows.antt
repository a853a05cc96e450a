-- ===== src/Timeline/Windows.antt =====
-- pkg/timeline/windows.go: sliding, tumbling and session windows, and their use.
pub mod Cover
pub mod Session
use go_temporal_timeline.Prelude.{
  ℕ, zero, suc, Bool, true, false, ◌&&◌, ◌||◌, Option, none, some, String, List, [], ◌∷◌, ◌++◌, map,
  if◌then◌else◌, str_eq,
}
use go_temporal_timeline.Prelude.Int.{pos, ltb_ℤ}
use go_temporal_timeline.GoTime.{Time, Duration, zero_time, before, after, equal, add, sub}
use go_temporal_timeline.GoSort.{Sorter, sort_by}
use go_temporal_timeline.GoFloat.{Float64}
use go_temporal_timeline.GoResult.{Outcome, ok, wrap_error, ◌>>=◌}
use go_temporal_timeline.GoParse.{Parser, parsed_duration}
use go_temporal_timeline.Timeline.Types.{NumericValue, PriceTimeline}

-- A `WindowType` is a string; the three constants are its values here.
abbrev pub sliding_window : String
sliding_window = "sliding"

abbrev pub tumbling_window : String
tumbling_window = "tumbling"

abbrev pub session_window : String
session_window = "session"

pub record Window : Type 0 where
  pub type : String
  pub size : Duration
  pub slide : Duration
  pub timeout : Duration
  pub start : Time
  pub end : Time

abbrev pub empty_window : Window
empty_window = record {
  type = "";
  size = pos 0;
  slide = pos 0;
  timeout = pos 0;
  start = zero_time;
  end = zero_time;
}

pub record Ohlc : Type 0 where
  pub timestamp : Time
  pub open_price : Float64
  pub high : Float64
  pub low : Float64
  pub close : Float64
  pub volume : Float64
  pub symbol : String

-- `windowEnd` of both loops: the end of the window, cut off at the end of the range.
abbrev pub window_end : Time → Time → Duration → Time
window_end current end size = if after (add current size) end then end else add current size

-- The loops of `CreateSlidingWindows` and `CreateTumblingWindows` on fuel; `none` means that the
-- fuel ran out.
sliding_loop : ℕ → List Window → Time → Time → Duration → Duration → Option (List Window)
sliding_loop zero windows current end size slide = none
sliding_loop (suc fuel) windows current end size slide = elim (before current end) [
  | true ↦
      sliding_loop fuel
        (windows
          ++ record empty_window {
            type = sliding_window;
            size = size;
            slide = slide;
            start = current;
            end = window_end current end size;
          }
            ∷ [])
        (add current slide) end size slide
  | false ↦ some windows
]

unfoldable pub create_sliding_windows : ℕ → Time → Time → Duration → Duration → Option (List Window)
unfolding sliding_loop
create_sliding_windows fuel start end size slide = sliding_loop fuel [] start end size slide

tumbling_loop : ℕ → List Window → Time → Time → Duration → Option (List Window)
tumbling_loop zero windows current end size = none
tumbling_loop (suc fuel) windows current end size = elim (before current end) [
  | true ↦
      tumbling_loop fuel
        (windows
          ++ record empty_window {
            type = tumbling_window;
            size = size;
            start = current;
            end = window_end current end size;
          }
            ∷ [])
        (window_end current end size) end size
  | false ↦ some windows
]

unfoldable pub create_tumbling_windows : ℕ → Time → Time → Duration → Option (List Window)
unfolding tumbling_loop
create_tumbling_windows fuel start end size = tumbling_loop fuel [] start end size

-- The variables of the loop of `CreateSessionWindows`.
pub record SessionState : Type 0 where
  pub windows : List Window
  pub session_start : Time
  pub last_event : Time

abbrev pub close_session : Duration → SessionState → List Window
close_session timeout s =
    s.windows
    ++ record empty_window {
      type = session_window;
      timeout = timeout;
      start = s.session_start;
      end = add s.last_event timeout;
    }
      ∷ []

session_step : Duration → SessionState → Time → SessionState
session_step timeout s current =
    if ltb_ℤ timeout (sub current s.last_event)
    then record { windows = close_session timeout s; session_start = current; last_event = current }
    else record s { last_event = current }

session_loop : Duration → SessionState → List Time → SessionState
session_loop timeout s [] = s
session_loop timeout s (current ∷ rest) = session_loop timeout (session_step timeout s current) rest

sessions_sorted : Duration → List Time → List Window
sessions_sorted timeout [] = []
sessions_sorted timeout (first ∷ rest) =
    close_session timeout (
      session_loop timeout (record { windows = []; session_start = first; last_event = first })
        rest)

module _ ⦃s : Sorter⦄ where
  unfoldable pub create_session_windows : List Time → Duration → List Window
  unfolding sessions_sorted session_loop session_step sub
  create_session_windows [] timeout = []
  create_session_windows (e ∷ events) timeout =
      sessions_sorted timeout (sort_by (λ t. t) (e ∷ events))

-- The test of both filters.
abbrev pub in_window : Time → Window → Bool
in_window t w = (equal t w.start || after t w.start) && before t w.end

price_loop : Window → PriceTimeline → PriceTimeline → PriceTimeline
price_loop window windowed [] = windowed
price_loop window windowed (value ∷ rest) =
    price_loop window
      (if in_window value.timestamp window then windowed ++ value ∷ [] else windowed) rest

unfoldable pub apply_window_to_price_timeline : PriceTimeline → Window → PriceTimeline
unfolding price_loop
apply_window_to_price_timeline timeline window = price_loop window [] timeline

ohlc_loop : Window → List Ohlc → List Ohlc → List Ohlc
ohlc_loop window windowed [] = windowed
ohlc_loop window windowed (ohlc ∷ rest) =
    ohlc_loop window (if in_window ohlc.timestamp window then windowed ++ ohlc ∷ [] else windowed)
      rest

unfoldable pub apply_window_to_ohlc_timeline : List Ohlc → Window → List Ohlc
unfolding ohlc_loop
apply_window_to_ohlc_timeline timeline window = ohlc_loop window [] timeline

unfoldable pub get_timestamps_from_price_timeline : PriceTimeline → List Time
get_timestamps_from_price_timeline timeline = map (λ v. v.timestamp) timeline

unfoldable pub get_timestamps_from_ohlc_timeline : List Ohlc → List Time
get_timestamps_from_ohlc_timeline timeline = map (λ v. v.timestamp) timeline

pub record WindowSpec : Type 0 where
  pub type : String
  pub size : String
  pub slide : String
  pub timeout : String

-- A duration of the specification that may be left out: 0 for an empty text.
abbrev pub optional_duration : ⦃p : Parser⦄ → String → String → Outcome Duration
optional_duration message s =
    if str_eq s "" then ok (pos 0) else wrap_error message [] (parsed_duration s)

unfoldable pub parse_window_spec : ⦃p : Parser⦄ → WindowSpec → Outcome Window
unfolding parsed_duration
parse_window_spec spec =
    wrap_error "invalid window size: %w" [] (parsed_duration spec.size) >>= λ size.
    optional_duration "invalid slide duration: %w" spec.slide >>= λ slide.
    optional_duration "invalid timeout duration: %w" spec.timeout >>= λ timeout.
    ok (record empty_window { type = spec.type; size = size; slide = slide; timeout = timeout })
