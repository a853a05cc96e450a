-- ===== src/Temporal/Workflows/Waits.antt =====
-- When a query ends: `QueryWorkflow` of pkg/temporal/workflows.go and its wait for the activities of
-- the chunks.
use go_temporal_timeline.Prelude.{
  ◌≡◌, refl, ap, sym, ◌∙◌, ℕ, suc, ◌≤◌, ◌<◌, arith, Bool-cases, leb, true, false, String, Option,
  none, some, ◌⊎◌, inl, inr, List, [], ◌∷◌, length, eq_iff, if_intro, str_eq, if◌then◌else◌, ◌↔◌,
  leb→le, Bool,
}
use go_temporal_timeline.GoSort.{Sorter}
use go_temporal_timeline.GoFloat.{FloatOps}
use go_temporal_timeline.GoResult.{Error, Outcome, ok}
use go_temporal_timeline.GoParse.{Parser}
use go_temporal_timeline.Timeline.Types.{Event}
use go_temporal_timeline.Temporal.Types.{QueryOperation}
use go_temporal_timeline.Temporal.Storage.{StorageService, IndexService}
use go_temporal_timeline.Temporal.Service.{TemporalService}
use go_temporal_timeline.Temporal.Chunks.Cut.{create_event_chunks-IsNumbered}
use go_temporal_timeline.Temporal.Chunks.Assemble.{AssembledResult, process_events_concurrently}
use go_temporal_timeline.Temporal.Micro.{Naming}
use go_temporal_timeline.Temporal.Micro.Orchestrator.{Surroundings}
use go_temporal_timeline.Temporal.Workflows.{
  QueryRequest, Mode, micro_workflow, concurrent, single, choose_mode, returned_chunks, run_mode,
  process_loaded, query_workflow,
}
use go_temporal_timeline.Temporal.Workflows.Laws.{loaded_events-ok}

-- The mode is concurrent: it is asked for, or no other mode is and there are 10000 events.
pub data IsConcurrent (mode : String) (n : ℕ) : Type 0 where
  asked : mode ≡ "concurrent" → IsConcurrent mode n
  by_size : (mode ≡ "micro-workflow" → ⊥) → (mode ≡ "single" → ⊥) → 10000 ≤ n → IsConcurrent mode n

true_not_false : true ≡ false → ⊥
true_not_false h = cc

differs : (x y : String) → (x ≡ y → ⊥) → str_eq x y ≡ false
differs x y h = elim (Bool-cases (str_eq x y)) [
  | inl same ↦ absurd (h ((eq_iff x y).0 same))
  | inr other ↦ other
]

-- The switch over three tests and the size.
switch_concurrent :
    (a b c d : Bool)
    → (if a
        then micro_workflow
        else if b
        then concurrent
        else if c
        then single
        else if d
        then concurrent
        else single)
      ≡ concurrent
    → (b ≡ true) ⊎ ((a ≡ false) × (c ≡ false) × (d ≡ true))
switch_concurrent true b c d h = cc
switch_concurrent false true c d h = inl refl
switch_concurrent false false true d h = cc
switch_concurrent false false false true h = inr (refl, refl, refl)
switch_concurrent false false false false h = cc

is_other : (x y : String) → str_eq x y ≡ false → x ≡ y → ⊥
is_other x y h e = true_not_false (sym ((eq_iff x y).1 e) ∙ h)

le→leb : (a b : ℕ) → a ≤ b → leb a b ≡ true
le→leb a b h = ground (arith, h)

some_not_none : {B : Type 0} {x : B} → some x ≡ none → ⊥
some_not_none h = cc

returned_chunks-none :
    (polls : Bool) (x : Option (Outcome AssembledResult)) (o : Outcome AssembledResult)
    → x ≡ some o
    → (returned_chunks (if polls then x else none) ≡ none) ↔ (polls ≡ false)
returned_chunks-none true x o e =
    ((λ h. absurd (some_not_none (sym (ap returned_chunks e) ∙ h))), (λ h. cc))
returned_chunks-none false x o e = ((λ h. refl), (λ h. refl))

choose_mode-concurrent :
    (mode : String) (n : ℕ) → (choose_mode mode n ≡ concurrent) ↔ IsConcurrent mode n
choose_mode-concurrent mode n = (
  (λ h.
      elim (switch_concurrent (str_eq mode "micro-workflow") (str_eq mode "concurrent")
        (str_eq mode "single") (leb 10000 n) h) [
          | inl same ↦ asked ((eq_iff mode "concurrent").0 same)
          | inr (a, c, d) ↦
              by_size (is_other mode "micro-workflow" a) (is_other mode "single" c)
                (leb→le 10000 n d)
        ]),
  back,
)
  where
    back : IsConcurrent mode n → choose_mode mode n ≡ concurrent
    back (asked e) = rw e refl
    back (by_size a c d) =
        rw (differs mode "micro-workflow" a, differs mode "single" c, le→leb 10000 n d)
          (if_intro (λ x. x ≡ concurrent) (str_eq mode "concurrent") (λ t. refl) (λ t. refl))

module _ {A : Type 0} (classify : A → Error ⊎ Event) ⦃p : Parser⦄ ⦃f : FloatOps⦄ ⦃s : Sorter⦄
    ⦃m : Naming⦄ ⦃v : TemporalService⦄ (w : Surroundings A) where
  process_events_concurrently-some :
      (events : List A) (operations : List QueryOperation)
      → (o : Outcome AssembledResult) × (process_events_concurrently classify
            (suc (length events))
            events
            operations
          ≡ some o)
  unfolding process_events_concurrently
  process_events_concurrently-some events operations =
      let cut =
        create_event_chunks-IsNumbered (suc (length events)) events 10000 (omega arith)
          (omega arith) in
      rw (cut.1, process_events_concurrently) (_, refl)

  -- Whether the mode returns, given that it is the one that was chosen.
  run_mode-waits :
      (mode : Mode) (events : List A) (operations : List QueryOperation)
      → (run_mode classify w mode (suc (length events)) events operations ≡ none)
        ↔ ((mode ≡ concurrent) × (0 < length events) × (v.polls "timeline-processing" ≡ false))
  unfolding run_mode process_events_concurrently
  run_mode-waits micro_workflow events operations = (λ h. cc, λ h. absurd (cc h.0))
  run_mode-waits single events operations = (λ h. cc, λ h. absurd (cc h.0))
  run_mode-waits concurrent [] operations = (λ h. cc, λ h. absurd (omega (arith, h.1)))
  run_mode-waits concurrent (e ∷ es) operations =
      let o = process_events_concurrently-some (e ∷ es) operations in
      let waits = returned_chunks-none (v.polls "timeline-processing") _ o.0 o.1 in
      (λ h. (refl, omega arith, waits.0 h), λ h. waits.1 h.2)

  module _ (S : StorageService A) (I : IndexService A) where
    -- A query that has loaded its events runs for ever exactly when there are events, the concurrent
    -- mode is asked for, or neither of the other two is and there are at least 10000 events, and no
    -- worker polls the queue of the chunk activities. In every other case it ends.
    pub query_workflow-waits :
        (stored : S.State) (request : QueryRequest) (events : List A)
        → S.load_events stored request.timeline_id request.time_range ≡ ok events
        → (query_workflow classify w S stored request ≡ none) ↔ (
            IsConcurrent request.processing_mode (length events)
            × (0 < length events)
            × (v.polls "timeline-processing" ≡ false))
    unfolding query_workflow process_loaded
    query_workflow-waits stored request events load =
        let mode = choose_mode request.processing_mode (length events) in
        let waits = run_mode-waits mode events request.operations in
        let chosen = choose_mode-concurrent request.processing_mode (length events) in
        rw (loaded_events-ok S I stored request events load) (
          λ h. let r = waits.0 h in (chosen.0 r.0, r.1, r.2),
          λ h. waits.1 (chosen.1 h.0, h.1, h.2),
        )
