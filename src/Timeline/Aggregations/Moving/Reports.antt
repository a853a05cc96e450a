-- ===== src/Timeline/Aggregations/Moving/Reports.antt =====
-- Which values `MovingAggregate` aggregates for which window, and that it returns.
use go_temporal_timeline.Prelude.{
  ℕ, ◌-◌, ◌≤◌, ◌<◌, ◌≡◌, ◌∙◌, sym, ap, refl, true, false, ◌||◌, String, List, [], ◌∷◌, ◌++◌, map,
  arith, str_eq, append_assoc, append-nil, if_intro, length,
}
use mathlib.Core.Path.{subst}
use mathlib.Core.List.Perm
use go_temporal_timeline.Prelude.Int.{pos}
use go_temporal_timeline.GoTime.{Time, after, equal, add-neg_duration, max_duration}
use go_temporal_timeline.GoSort.{Sorter}
use go_temporal_timeline.GoFloat.{Float64, FloatOps}
use go_temporal_timeline.GoResult.{ok, ◌>>=◌, is_ok, is_ok-ok, is_ok->>=}
use go_temporal_timeline.Timeline.Types.{NumericValue, PriceTimeline}
use go_temporal_timeline.Timeline.Windows.{Window}
use go_temporal_timeline.Timeline.Aggregations.{
  AggregationResult, MovingAggregation, by_timestamp, aggregate, aggregate_sorted, aggregate_values,
}
use go_temporal_timeline.Timeline.Aggregations.Moving.{
  since_loop, window_start, stamped, moving_append, moving_loop, moving_aggregate,
}

-- The aggregates that look up no index: all but the percentile and the median.
pub record IsPlain (agg_type : String) : Type 0 where
  pub not_percentile : str_eq agg_type "percentile" ≡ false
  pub not_median : str_eq agg_type "median" ≡ false

-- The second list has the values of the first one that are not before the start, in order.
pub data IsSince (start : Time) : PriceTimeline → PriceTimeline → Type 0 where
  since_nil : IsSince start [] []
  inside :
      {vs ws : PriceTimeline} (v : NumericValue)
      → start ≤ v.timestamp
      → IsSince start vs ws
      → IsSince start (v ∷ vs) (v ∷ ws)
  too_early :
      {vs ws : PriceTimeline} (v : NumericValue)
      → v.timestamp < start
      → IsSince start vs ws
      → IsSince start (v ∷ vs) ws

-- The window that reaches back from the instant by the length.
abbrev pub window_to : ℕ → Time → Window
window_to w u = record {
  type = "sliding";
  size = pos w;
  slide = pos 0;
  timeout = pos 0;
  start = u - w;
  end = u;
}

since_loop-IsSince :
    (start : Time) (found vs : PriceTimeline)
    → (ws : PriceTimeline) × (since_loop start found vs ≡ found ++ ws) × IsSince start vs ws
unfolding since_loop
since_loop-IsSince start found [] = ([], sym (append-nil found), since_nil)
since_loop-IsSince start found (v ∷ vs) =
    let skip = since_loop-IsSince start found vs in
    let keep = since_loop-IsSince start (found ++ v ∷ []) vs in
    if_intro
      (λ (l : PriceTimeline).
        (ws : PriceTimeline) × (since_loop start l vs ≡ found ++ ws) × IsSince start (v ∷ vs) ws)
      (after v.timestamp start || equal v.timestamp start)
      (λ e. (
        v ∷ keep.0,
        keep.1 ∙ append_assoc found (v ∷ []) keep.0,
        inside v (ground (arith, e)) keep.2,
      ))
      (λ e. (skip.0, skip.1, too_early v (ground (arith, e)) skip.2))

-- A value that is not too early is in the window.
IsSince-nonempty :
    (start : Time) (front : PriceTimeline) (v : NumericValue) (ws : PriceTimeline)
    → start ≤ v.timestamp
    → IsSince start (front ++ v ∷ []) ws
    → (w : NumericValue) × (rest : PriceTimeline) × (ws ≡ w ∷ rest)
IsSince-nonempty start [] v _ h (inside {ws} _ k i) = (v, ws, refl)
IsSince-nonempty start [] v _ h (too_early _ k i) = absurd (omega (arith, h, k))
IsSince-nonempty start (u ∷ front) v _ h (inside {ws} _ k i) = (u, ws, refl)
IsSince-nonempty start (u ∷ front) v ws h (too_early _ k i) = IsSince-nonempty start front v ws h i

module _ ⦃f : FloatOps⦄ where
  aggregate_values-is_ok :
      (agg_type : String) (first : Float64) (rest : List Float64) (p : Float64)
      → IsPlain agg_type
      → is_ok (aggregate_values agg_type first rest p) ≡ true
  unfolding aggregate_values
  aggregate_values-is_ok agg_type first rest p h = ground (arith, h.not_percentile, h.not_median)

  aggregate_sorted-is_ok :
      (timeline : PriceTimeline) (agg_type : String) (p : Float64) (n : ℕ)
      → IsPlain agg_type
      → is_ok (aggregate_sorted timeline agg_type p n) ≡ true
  unfolding aggregate_sorted
  aggregate_sorted-is_ok [] agg_type p n h = refl
  aggregate_sorted-is_ok (v ∷ vs) agg_type p n h =
      is_ok->>= (aggregate_values agg_type v.value (map (λ i. i.value) vs) p) _
        (aggregate_values-is_ok agg_type v.value (map (λ i. i.value) vs) p h) (λ _. refl)

  module _ ⦃s : Sorter⦄ where
    aggregate-is_ok :
        (timeline : PriceTimeline) (agg_type : String) (p : Float64)
        → IsPlain agg_type
        → is_ok (aggregate timeline agg_type p) ≡ true
    unfolding aggregate aggregate_sorted
    aggregate-is_ok [] agg_type p h = refl
    aggregate-is_ok (v ∷ timeline) agg_type p h =
        aggregate_sorted-is_ok (by_timestamp (v ∷ timeline)) agg_type p (length (v ∷ timeline)) h

    -- One result for each of the later values: the aggregate of exactly those of the values up to it
    -- that are at most `w` nanoseconds before it, marked with that window and its instant.
    pub data IsMoving (agg_type : String) (p : Float64) (w : ℕ)
        : PriceTimeline → PriceTimeline → List AggregationResult → Type 0 where
      moved_all : {earlier : PriceTimeline} → IsMoving agg_type p w earlier [] []
      moved :
          {earlier rest : PriceTimeline} {rs : List AggregationResult} (v : NumericValue)
          (values : PriceTimeline) (r : AggregationResult)
          → IsSince (v.timestamp - w) (earlier ++ v ∷ []) values
          → aggregate values agg_type p ≡ ok r
          → IsMoving agg_type p w (earlier ++ v ∷ []) rest rs
          → IsMoving agg_type p w earlier
              (v ∷ rest)
              (record r { window = window_to w v.timestamp; timestamp = v.timestamp } ∷ rs)

    moving_append-ok :
        (results : List AggregationResult) (values : PriceTimeline) (v : NumericValue)
        (agg_type : String) (w : ℕ) (p : Float64)
        → IsPlain agg_type
        → ((u : NumericValue) × (rest : PriceTimeline) × (values ≡ u ∷ rest))
        → w ≤ max_duration
        → (r : AggregationResult) × (aggregate values agg_type p ≡ ok r)
          × (moving_append results values v agg_type (pos w) p
              ≡ ok (
                  results
                  ++ record r { window = window_to w v.timestamp; timestamp = v.timestamp } ∷ []))
    unfolding moving_append
    moving_append-ok results [] v agg_type w p h (u, rest, e) small = absurd (cc e)
    moving_append-ok results (u ∷ vs) v agg_type w p h full small =
        let r = is_ok-ok (aggregate (u ∷ vs) agg_type p) (aggregate-is_ok (u ∷ vs) agg_type p h) in
        (
          r.0,
          r.1,
          ap (λ o. o >>= λ x. ok (results ++ stamped x v (pos w) ∷ [])) r.1
              ∙ ap
                  (λ start. ok (
                    results
                    ++ record r.0 {
                      window = record (window_to w v.timestamp) { start = start };
                      timestamp = v.timestamp;
                    }
                      ∷ []))
                  (add-neg_duration v.timestamp w small),
        )

    moving_loop-IsMoving :
        (results : List AggregationResult) (earlier rest : PriceTimeline) (agg_type : String)
        (w : ℕ) (p : Float64)
        → IsPlain agg_type
        → w ≤ max_duration
        → (rs : List AggregationResult) × (moving_loop results earlier rest agg_type (pos w) p
            ≡ ok (results ++ rs))
          × IsMoving agg_type p w earlier rest rs
    unfolding moving_loop
    moving_loop-IsMoving results earlier [] agg_type w p h small =
        ([], ap ok (sym (append-nil results)), moved_all)
    moving_loop-IsMoving results earlier (v ∷ rest) agg_type w p h small =
        let start = add-neg_duration v.timestamp w small in
        let found = since_loop-IsSince (window_start v (pos w)) [] (earlier ++ v ∷ []) in
        let since = subst (λ t. IsSince t (earlier ++ v ∷ []) found.0) start found.2 in
        let full = IsSince-nonempty (v.timestamp - w) earlier v found.0 (omega arith) since in
        let one = moving_append-ok results found.0 v agg_type w p h full small in
        let r : AggregationResult = record one.0 {
          window = window_to w v.timestamp;
          timestamp = v.timestamp;
        } in
        let all =
          moving_loop-IsMoving (results ++ r ∷ []) (earlier ++ v ∷ []) rest agg_type w p h small in
        (
          r ∷ all.0,
          ap
                (λ l. moving_append results l v agg_type (pos w) p >>= λ n.
                  moving_loop n (earlier ++ v ∷ []) rest agg_type (pos w) p)
                found.1
              ∙ ap (λ o. o >>= λ n. moving_loop n (earlier ++ v ∷ []) rest agg_type (pos w) p) one.2
              ∙ all.1
              ∙ ap ok (append_assoc results (r ∷ []) all.0),
          moved v found.0 one.0 since one.1 all.2,
        )

    -- For every aggregate but the percentile and the median, and a window that is not negative,
    -- `MovingAggregate` returns, with one result for each value of the timeline, in the order of the
    -- sort. That result is the aggregate of exactly those values up to this one, in that order, that
    -- are before it by the length of the window at most, and it is marked with this window and the
    -- instant of the value.
    pub moving_aggregate-IsMoving :
        (timeline : PriceTimeline) (agg_type : String) (w : ℕ) (p : Float64)
        → IsPlain agg_type
        → w ≤ max_duration
        → (r : MovingAggregation) × (moving_aggregate timeline agg_type (pos w) p ≡ ok r)
          × IsMoving agg_type p w [] (by_timestamp timeline) r.results
    unfolding moving_aggregate
    moving_aggregate-IsMoving [] agg_type w p h small = (
      record { type = agg_type; window = pos w; results = [] },
      refl,
      subst (λ l. IsMoving agg_type p w [] l [])
          (Perm.nil-eq (Perm.symm (s.sort-perm NumericValue (λ v. v.timestamp) []))) moved_all,
    )
    moving_aggregate-IsMoving (v ∷ timeline) agg_type w p h small =
        let all = moving_loop-IsMoving [] [] (by_timestamp (v ∷ timeline)) agg_type w p h small in
        (record { type = agg_type; window = pos w; results = all.0 }, rw all.1 refl, all.2)
