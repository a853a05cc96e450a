-- ===== src/Timeline/Events/Latest.antt =====
-- What `LatestEventToState` says of each instant.
use go_temporal_timeline.Prelude.{
  ◌+◌, ◌≤◌, ◌<◌, ◌≡◌, ◌∙◌, ap, refl, Bool, true, false, ◌&&◌, ◌||◌, [], ◌∷◌, arith, ltb, leb,
  leb_of_lt, Option, none, some, String, str_eq, eq_iff, any, All, All-map, any-perm, any-append,
  Bool-cases, inl, inr, if◌then◌else◌, last_from,
}
use native.Mathlib.Nat.{le_trans}
use go_temporal_timeline.GoTime.{Time, zero_time}
use go_temporal_timeline.GoSort.{Sorter, sort_by, IsAscending}
use go_temporal_timeline.Timeline.Types.{Event, EventTimeline, StateInterval, StateTimeline}
use go_temporal_timeline.Timeline.Events.{
  LatestState, close_interval, latest_step, latest_loop, latest_sorted, latest_event_to_state,
}

-- The value of the last event of the list that is not after the instant, if there is one.
pub latest_value : Option String → EventTimeline → Time → Option String
latest_value d [] t = d
latest_value d (e ∷ es) t = latest_value (if leb e.timestamp t then some e.value else d) es t

abbrev pub is_state : String → Option String → Bool
is_state equals none = false
is_state equals (some v) = str_eq v equals

-- Some interval covers the instant.
abbrev pub in_state : StateTimeline → Time → Bool
in_state tl t = any (λ i. leb i.start t && ltb t i.end) tl

latest_value_later :
    (d : Option String) (es : EventTimeline) (t : Time)
    → All (λ e. t < e.timestamp) es
    → latest_value d es t ≡ d
unfolding latest_value
latest_value_later d [] t h = refl
latest_value_later d (e ∷ es) t h = rw (leb_of_lt t e.timestamp h.0) (latest_value_later d es t h.1)

-- An event after the instant, at the head of a sorted list, leaves the value as it was.
latest_value_before :
    (d : Option String) (e : Event) (es : EventTimeline) (t : Time)
    → IsAscending (λ x. x.timestamp) (e ∷ es)
    → t < e.timestamp
    → latest_value d es t ≡ d
latest_value_before d e es t h lt =
    latest_value_later d es t (All-map (λ x (k : e.timestamp ≤ x.timestamp). le_trans lt k) es h.0)

latest_value_same :
    (b : Bool) {v w : String} (es : EventTimeline) (t : Time)
    → v ≡ w
    → latest_value (if b then some v else some w) es t ≡ latest_value (some w) es t
latest_value_same true es t p = ap (λ x. latest_value (some x) es t) p
latest_value_same false es t p = refl

pub last-le :
    (e : Event) (es : EventTimeline)
    → IsAscending (λ x. x.timestamp) (e ∷ es)
    → e.timestamp ≤ (last_from e es).timestamp
last-le e [] h = omega arith
last-le e (x ∷ es) h = omega (arith, last-le x es h.1, h.0.0)

close_interval-in_state :
    (equals : String) (s : LatestState) (end t : Time)
    → in_state (close_interval equals s end) t ≡ (
        in_state s.intervals t
        || (str_eq s.current_state equals && leb s.state_start t && ltb t end))
close_interval-in_state equals s end t = ground (
  arith,
  any-append (λ (i : StateInterval). leb i.start t && ltb t i.end) s.intervals
      (record { state = s.current_state; start = s.state_start; end = end } ∷ []),
)

-- After the first event: the state has begun at an event that is not after those to come.
record IsRunning (s : LatestState) (last : Event) (rest : EventTimeline) : Type 0 where
  started : 0 < s.index
  begun : s.state_start ≤ last.timestamp
  ascending : IsAscending (λ x. x.timestamp) (last ∷ rest)

-- The event keeps the state, or changes it.
latest_step_same :
    (equals : String) (s : LatestState) (e : Event)
    → 0 < s.index
    → str_eq e.value s.current_state ≡ true
    → latest_step equals s e ≡ record s { index = s.index + 1 }
unfolding latest_step
latest_step_same equals s e h k = ground arith

latest_step_new :
    (equals : String) (s : LatestState) (e : Event)
    → 0 < s.index
    → str_eq e.value s.current_state ≡ false
    → latest_step equals s e ≡ record {
      index = s.index + 1;
      intervals = close_interval equals s e.timestamp;
      current_state = e.value;
      state_start = e.timestamp;
    }
unfolding latest_step
latest_step_new equals s e h k = ground arith

-- What the loop and the closing of its last interval show, up to the last event.
latest_shows : String → LatestState → Event → EventTimeline → Time → Bool
latest_shows equals s last rest t =
    in_state s.intervals t
    || (leb s.state_start t
        && leb t (last_from last rest).timestamp
        && is_state equals (latest_value (some s.current_state) rest t))

latest_loop-in_state :
    (equals : String) (s : LatestState) (last : Event) (rest : EventTimeline) (t : Time)
    → IsRunning s last rest
    → in_state
        (close_interval equals (latest_loop equals s rest) ((last_from last rest).timestamp + 1))
        t
      ≡ latest_shows equals s last rest t
unfolding latest_loop latest_shows latest_value
latest_loop-in_state equals s last [] t r =
    ground (arith, close_interval-in_state equals s (last.timestamp + 1) t)
latest_loop-in_state equals s last (e ∷ rest) t r =
    elim (Bool-cases (str_eq e.value s.current_state)) [
      | inl same ↦
          let n : LatestState = record s { index = s.index + 1 } in
          ap
            (λ n.
              in_state
                (close_interval equals (latest_loop equals n rest)
                  ((last_from e rest).timestamp + 1))
                t)
            (latest_step_same equals s e r.started same)
          ∙ latest_loop-in_state equals n e rest t (record {
            started = omega arith;
            begun = ground (arith, r.begun, r.ascending.0.0);
            ascending = r.ascending.1;
          })
          ∙ ground (
            arith,
            latest_value_same (leb e.timestamp t) rest t ((eq_iff e.value s.current_state).0 same),
          )
      | inr new ↦
          let n : LatestState = record {
            index = s.index + 1;
            intervals = close_interval equals s e.timestamp;
            current_state = e.value;
            state_start = e.timestamp;
          } in
          ap
            (λ n.
              in_state
                (close_interval equals (latest_loop equals n rest)
                  ((last_from e rest).timestamp + 1))
                t)
            (latest_step_new equals s e r.started new)
          ∙ latest_loop-in_state equals n e rest t
              (record { started = omega arith; begun = omega arith; ascending = r.ascending.1 })
          ∙ ground (
            arith,
            close_interval-in_state equals s e.timestamp t,
            latest_value_before (some s.current_state) e rest t r.ascending.1,
            last-le e rest r.ascending.1,
            r.begun,
            r.ascending.0.0,
          )
    ]

any_not_before :
    (e : Event) (es : EventTimeline) (t : Time)
    → IsAscending (λ x. x.timestamp) (e ∷ es)
    → any (λ x. leb t x.timestamp) (e ∷ es) ≡ leb t (last_from e es).timestamp
any_not_before e [] t h = ground arith
any_not_before e (x ∷ es) t h = ground (arith, any_not_before x es t h.1, last-le e (x ∷ es) h)

first_step :
    (equals : String) (e : Event)
    → latest_step equals
        (record { index = 0; intervals = []; current_state = ""; state_start = zero_time })
        e
      ≡ record { index = 1; intervals = []; current_state = e.value; state_start = e.timestamp }
unfolding latest_step
first_step equals e = refl

latest_sorted-in_state :
    (equals : String) (es : EventTimeline) (t : Time)
    → IsAscending (λ x. x.timestamp) es
    → in_state (latest_sorted equals es) t
      ≡ (is_state equals (latest_value none es t) && any (λ x. leb t x.timestamp) es)
unfolding latest_sorted latest_value latest_loop latest_shows
latest_sorted-in_state equals [] t h = refl
latest_sorted-in_state equals (e ∷ es) t h =
    let one : LatestState = record {
      index = 1;
      intervals = [];
      current_state = e.value;
      state_start = e.timestamp;
    } in
    ap
      (λ n.
        in_state (close_interval equals (latest_loop equals n es) ((last_from e es).timestamp + 1))
          t)
      (first_step equals e)
    ∙ latest_loop-in_state equals one e es t
        (record { started = omega arith; begun = omega arith; ascending = h })
    ∙ ground (arith, any_not_before e es t h, latest_value_before none e es t h)

-- At any instant up to the last event, `LatestEventToState` has an interval that covers it exactly
-- when the last event that is not after it, in the order of the sort, carries the wanted value.
-- No interval covers a later instant.
pub in_state-latest_event_to_state :
    ⦃s : Sorter⦄ (events : EventTimeline) (equals : String) (t : Time)
    → in_state (latest_event_to_state events equals) t ≡ (
        is_state equals (latest_value none (sort_by (λ x. x.timestamp) events) t)
        && any (λ x. leb t x.timestamp) events)
unfolding latest_event_to_state
in_state-latest_event_to_state ⦃s⦄ [] equals t = ground arith
in_state-latest_event_to_state ⦃s⦄ (e ∷ events) equals t =
    latest_sorted-in_state equals _ t (s.sort-IsAscending Event (λ x. x.timestamp) (e ∷ events))
    ∙ ap (λ b. is_state equals (latest_value none (sort_by (λ x. x.timestamp) (e ∷ events)) t) && b)
        (any-perm (λ x. leb t x.timestamp) (s.sort-perm Event (λ x. x.timestamp) (e ∷ events)))
