-- ===== src/Temporal/Ingestion/Laws.antt =====
-- What the ingestion of a timeline keeps, and when its workflow continues as new.
use go_temporal_timeline.Prelude.{
  ◌≡◌, refl, ap, sym, ◌∙◌, ◌+◌, ◌≤◌, ◌<◌, Bool, true, false, String, List, [], ◌∷◌, ◌++◌,
  append_assoc, append-nil, length, length-append, leb, arith, str_eq, if◌then◌else◌, ◌⊎◌, inl, inr,
  Bool-cases,
}
use go_temporal_timeline.GoResult.{Outcome, ok, fail, panic}
use go_temporal_timeline.Temporal.Storage.{
  StorageService, IndexService, IsLawful, append_event_activity-ok,
}
use go_temporal_timeline.Temporal.Ingestion.{Delivery, World, advance, append_outcome, ingest}

module _ {A : Type 0} (S : StorageService A) (I : IndexService A) where
  -- A list with more at its end, for the timeline that is written.
  abbrev pub extended : Bool → List A → List A → List A
  extended mine xs ys = if mine then xs ++ ys else xs

  extended_nil : (mine : Bool) (xs : List A) → extended mine xs [] ≡ xs
  extended_nil true xs = append-nil xs
  extended_nil false xs = refl

  extended_append :
      (mine : Bool) (xs ys zs : List A)
      → extended mine (extended mine xs ys) zs ≡ extended mine xs (ys ++ zs)
  extended_append true xs ys zs = append_assoc xs ys zs
  extended_append false xs ys zs = refl

  -- The events of the signals that were appended.
  abbrev kept : Delivery A → Outcome (S.State × I.Index) → List A
  kept d (ok r) = d.events
  kept d (fail e) = []
  kept d panic = []

  abbrev pub accepted : World S I → List (Delivery A) → List A
  accepted w [] = []
  accepted w (d ∷ ds) =
      let o = append_outcome S I w d in kept d o ++ accepted (advance S I w d o) ds

  advance_count :
      (w : World S I) (d : Delivery A) (o : Outcome (S.State × I.Index))
      → w.state.event_count < 1000
      → (advance S I w d o).state.event_count < 1000
  unfolding advance
  advance_count w d (ok r) h = ground arith
  advance_count w d (fail e) h = h
  advance_count w d panic h = h

  advance_id :
      (w : World S I) (d : Delivery A) (o : Outcome (S.State × I.Index))
      → (advance S I w d o).state.timeline_id ≡ w.state.timeline_id
  unfolding advance
  advance_id w d (ok r) = ground arith
  advance_id w d (fail e) = refl
  advance_id w d panic = refl

  advance_stored :
      (w : World S I) (d : Delivery A) (r : S.State × I.Index)
      → (advance S I w d (ok r)).stored ≡ r.0
  unfolding advance
  advance_stored w d r = ground arith

  -- Either the events are counted, or a new execution begins.
  advance_progress :
      (w : World S I) (d : Delivery A) (o : Outcome (S.State × I.Index))
      → (w.continued < (advance S I w d o).continued)
        ⊎ ((w.continued ≡ (advance S I w d o).continued)
            × (w.state.event_count + length (kept d o) ≡ (advance S I w d o).state.event_count))
  unfolding advance
  advance_progress w d (ok r) =
      elim (Bool-cases (leb 1000 (w.state.event_count + length d.events))) [
        | inl full ↦ inl (rw full (omega arith))
        | inr room ↦ inr (rw room (refl, refl))
      ]
  advance_progress w d (fail e) = inr (refl, omega arith)
  advance_progress w d panic = inr (refl, omega arith)

  -- From fewer than 1000 counted events on, the execution that runs after any deliveries has counted
  -- fewer than 1000 events, whichever of the deliveries fail.
  pub ingest_count :
      (w : World S I) (ds : List (Delivery A))
      → w.state.event_count < 1000
      → (ingest S I w ds).state.event_count < 1000
  unfolding ingest
  ingest_count w [] h = h
  ingest_count w (d ∷ ds) h =
      ingest_count (advance S I w d (append_outcome S I w d)) ds
        (advance_count w d (append_outcome S I w d) h)

  ingest_monotone :
      (w : World S I) (ds : List (Delivery A)) → w.continued ≤ (ingest S I w ds).continued
  unfolding ingest
  ingest_monotone w [] = omega arith
  ingest_monotone w (d ∷ ds) =
      let w' = advance S I w d (append_outcome S I w d) in
      elim (advance_progress w d (append_outcome S I w d)) [
        | inl more ↦ omega (arith, more, ingest_monotone w' ds)
        | inr same ↦ omega (arith, same.0, ingest_monotone w' ds)
      ]

  -- Ingestion does not run on for ever in one execution: once the events that it has counted and
  -- those that are accepted come to 1000, it has continued as new.
  pub ingest_continues :
      (w : World S I) (ds : List (Delivery A))
      → w.state.event_count < 1000
      → 1000 ≤ w.state.event_count + length (accepted w ds)
      → w.continued < (ingest S I w ds).continued
  unfolding ingest
  ingest_continues w [] h k = absurd (omega (arith, h, k))
  ingest_continues w (d ∷ ds) h k =
      let o = append_outcome S I w d in
      let w' = advance S I w d o in
      elim (advance_progress w d o) [
        | inl more ↦ omega (arith, more, ingest_monotone w' ds)
        | inr same ↦ omega (
          arith,
          same.0,
          ingest_continues w' ds (advance_count w d o h)
              (omega (arith, k, same.1, length-append (kept d o) (accepted w' ds))),
        )
      ]

  module _ (lawful : IsLawful S) where
    advance_view :
        (w : World S I) (d : Delivery A) (id : String)
        → lawful.view (advance S I w d (append_outcome S I w d)).stored id
          ≡ extended
              (str_eq w.state.timeline_id id)
              (lawful.view w.stored id)
              (kept d (append_outcome S I w d))
    unfolding advance
    advance_view w d id = go (append_outcome S I w d) refl
      where
        go :
            (o : Outcome (S.State × I.Index))
            → append_outcome S I w d ≡ o
            → lawful.view (advance S I w d o).stored id
              ≡ extended (str_eq w.state.timeline_id id) (lawful.view w.stored id) (kept d o)
        go (ok r) e =
            ap (λ s. lawful.view s id) (advance_stored w d r)
            ∙ lawful.view-append w.stored r.0 w.state.timeline_id id d.events
                (append_event_activity-ok S I w.stored w.index w.state.timeline_id d.events r e)
        go (fail x) e = sym (extended_nil (str_eq w.state.timeline_id id) (lawful.view w.stored id))
        go panic e = sym (extended_nil (str_eq w.state.timeline_id id) (lawful.view w.stored id))

    -- The timeline of the workflow holds what it held and then the accepted events in the order in
    -- which their signals came, across every continuation; all other timelines stay as they were.
    pub ingest_view :
        (w : World S I) (ds : List (Delivery A)) (id : String)
        → lawful.view (ingest S I w ds).stored id
          ≡ extended (str_eq w.state.timeline_id id) (lawful.view w.stored id) (accepted w ds)
    unfolding ingest
    ingest_view w [] id =
        sym (extended_nil (str_eq w.state.timeline_id id) (lawful.view w.stored id))
    ingest_view w (d ∷ ds) id =
        let o = append_outcome S I w d in
        let w' = advance S I w d o in
        ingest_view w' ds id
        ∙ ap (λ n. extended (str_eq n id) (lawful.view w'.stored id) (accepted w' ds))
            (advance_id w d o)
        ∙ ap (λ l. extended (str_eq w.state.timeline_id id) l (accepted w' ds))
            (advance_view w d id)
        ∙ extended_append (str_eq w.state.timeline_id id) (lawful.view w.stored id) (kept d o)
            (accepted w' ds)
