-- ===== src/Temporal/Micro/Panics.antt =====
-- When the orchestrator panics.
use mathlib.Core.List.{Memᴰ}
use mathlib.Core.Path.{subst}
use go_temporal_timeline.Prelude.{
  ◌≡◌, ◌≢◌, refl, ap, sym, ℕ, suc, ◌+◌, ◌<◌, arith, Bool, true, false, ◌&&◌, String, List, [], ◌∷◌,
  ◌↔◌, ◌⊎◌, inl, inr, length, ltb, ltb→lt, if_intro, last_from,
}
use go_temporal_timeline.GoTime.{Time}
use go_temporal_timeline.GoResult.{panic}
use go_temporal_timeline.Temporal.Types.{QueryOperation}
use go_temporal_timeline.Temporal.Chunks.Cut.{concat, partition_events-concat}
use go_temporal_timeline.Temporal.Micro.{OperatorResult, Naming, Named, put_result}
use go_temporal_timeline.Temporal.Micro.Assemble.{
  MicroTally, micro_loop, micro_final, assemble_operator_results,
}
use go_temporal_timeline.Temporal.Micro.Orchestrator.{
  default_partition_size, OrchestratorRequest, ChildOutcome, completed, failed, timed_out, Launched,
  put_launched, Surroundings, partitions_of, launch_partitions, launch, launch_loop, select_child,
  children_loop, futures_loop, write_metadata, operator_results, operator_orchestrator_workflow,
}
use go_temporal_timeline.Temporal.Micro.Launch.{launch_loop-put, put_launched-here}
use go_temporal_timeline.Temporal.Micro.Result.{KeepsEntries, outcome_from, results_from}

put_result-some :
    (key : String) (r : OperatorResult) (ns : List Named) → 0 < length (put_result key r ns)
unfolding put_result
put_result-some key r [] = omega arith
put_result-some key r (n ∷ ns) = ground arith

module _ ⦃m : Naming⦄ (now : Time) where
  select_child-some :
      (key : String) (i : ℕ) (c : ChildOutcome) (ns : List Named)
      → 0 < length (select_child now key i c ns)
  unfolding select_child
  select_child-some key i (completed r) ns = put_result-some r.operator_id r ns
  select_child-some key i (failed e) ns = put_result-some _ _ ns
  select_child-some key i timed_out ns = put_result-some _ _ ns

  children_loop-some :
      (key : String) (i : ℕ) (cs : List ChildOutcome) (ns : List Named)
      → (0 < length cs) ⊎ (0 < length ns)
      → 0 < length (children_loop now key i cs ns)
  unfolding children_loop
  children_loop-some key i [] ns (inl h) = absurd (omega (arith, h))
  children_loop-some key i [] ns (inr h) = h
  children_loop-some key i (c ∷ cs) ns h =
      children_loop-some key (i + 1) cs (select_child now key i c ns)
        (inr (select_child-some key i c ns))

  futures_loop-keeps_some :
      (ls : List Launched) (ns : List Named) → 0 < length ns → 0 < length (futures_loop now ls ns)
  unfolding futures_loop
  futures_loop-keeps_some [] ns h = h
  futures_loop-keeps_some (l ∷ ls) ns h =
      futures_loop-keeps_some ls (children_loop now l.key 0 l.children ns)
        (children_loop-some l.key 0 l.children ns (inr h))

  futures_loop-some :
      (ls : List Launched) (ns : List Named) (l : Launched)
      → Memᴰ l ls
      → 0 < length l.children
      → 0 < length (futures_loop now ls ns)
  unfolding futures_loop
  futures_loop-some [] ns l in_ls h = elim in_ls [ ]
  futures_loop-some (x ∷ xs) ns l (Memᴰ.head e) h =
      futures_loop-keeps_some xs (children_loop now x.key 0 x.children ns) (
        children_loop-some x.key 0 x.children ns
          (inl (subst (λ (y : Launched). 0 < length y.children) e h)))
  futures_loop-some (x ∷ xs) ns l (Memᴰ.tail t) h =
      futures_loop-some xs (children_loop now x.key 0 x.children ns) l t h

many : (n : ℕ) (b : Bool) → (b && ltb default_partition_size n) ≡ true → 0 < n
many n true h = omega (arith, ltb→lt default_partition_size n h)
many n false h = cc

order_nil : (ls : List Launched) → ((l : Launched) → Memᴰ l ls → Memᴰ l []) → ls ≡ []
order_nil [] h = refl
order_nil (l ∷ ls) h = elim (h l (Memᴰ.head refl)) [ ]

concat-some :
    {A : Type 0} (ps : List (List A))
    → 0 < length (concat ps)
    → (p : List A) × (qs : List (List A)) × (ps ≡ p ∷ qs)
concat-some [] h = absurd (omega (arith, h))
concat-some (p ∷ ps) h = (p, ps, refl)

module _ ⦃m : Naming⦄ where
  micro_final-ok :
      (ns : List Named) (t : MicroTally) (xs : List OperatorResult) (ops : List QueryOperation)
      → write_metadata (micro_final ns t xs ops) ≢ panic
  unfolding micro_final
  micro_final-ok ns t [] ops = cc
  micro_final-ok ns t (x ∷ xs) [] = cc
  micro_final-ok ns t (x ∷ xs) (o ∷ ops) = cc

  assemble-ok :
      (ranged ns : List Named) (ops : List QueryOperation)
      → 0 < length ns
      → write_metadata (assemble_operator_results ranged ns ops) ≢ panic
  unfolding assemble_operator_results
  assemble-ok ranged [] ops h = absurd (omega (arith, h))
  assemble-ok ranged (n ∷ ns) ops h =
      let start : MicroTally = record { successful = []; failed = []; total_events = 0 } in
      let t = micro_loop start ranged in micro_final-ok (n ∷ ns) t t.successful ops

  assemble_nil :
      (ranged ns : List Named) (ops : List QueryOperation)
      → ns ≡ []
      → write_metadata (assemble_operator_results ranged ns ops) ≡ panic
  unfolding assemble_operator_results
  assemble_nil ranged ns ops h = rw h refl

module _ ⦃m : Naming⦄ {A : Type 0} where
  abbrev HasFirst : List (List A) → Type 0
  HasFirst parts = (p : List A) × (ps : List (List A)) × (parts ≡ p ∷ ps)

  -- There is always a first partition.
  pub partitions_of-some : (request : OrchestratorRequest A) → HasFirst (partitions_of request)
  partitions_of-some request =
      if_intro HasFirst
        (request.partition_events && ltb default_partition_size (length request.events))
        (λ large.
          let cut =
            partition_events-concat (suc (length request.events)) request.events
              default_partition_size (omega arith) (omega arith) in
          rw cut.1 (
            concat-some cut.0
              (rw cut.2 (many (length request.events) request.partition_events large))))
        (λ small. (request.events, [], refl))

  module _ (w : Surroundings A) where
    launched_children :
        (p : List A) (ps : List (List A)) (op : QueryOperation)
        → 0 < length (launch w (p ∷ ps) op).children
    unfolding launch_partitions
    launched_children p ps op = omega arith

    -- Where there is an operation, there is a result.
    results_from-some :
        (p : List A) (ps : List (List A)) (op : QueryOperation) (ops : List QueryOperation)
        → KeepsEntries w
        → 0 < length (results_from w (p ∷ ps) (op ∷ ops))
    results_from-some p ps op ops order =
        let loop = launch_loop-put w (p ∷ ps) [] op ops in
        let l = launch w (p ∷ ps) (last_from op ops) in
        rw loop.1 (
          futures_loop-some w.now (w.order (put_launched l loop.0)) [] l
            ((order.0 (put_launched l loop.0) l).1 (put_launched-here l loop.0))
            (launched_children p ps (last_from op ops)))

    outcome_from-panic :
        (p : List A) (ps : List (List A)) (operations : List QueryOperation)
        → KeepsEntries w
        → (outcome_from w (p ∷ ps) operations ≡ panic) ↔ (operations ≡ [])
    unfolding launch_loop futures_loop
    outcome_from-panic p ps [] order = (
      λ h. refl,
      λ h.
          assemble_nil (w.range (results_from w (p ∷ ps) [])) (results_from w (p ∷ ps) []) []
            (ap (λ ls. futures_loop w.now ls []) (order_nil (w.order []) (λ l. (order.0 [] l).0))),
    )
    outcome_from-panic p ps (op ∷ ops) order = (
      λ h. absurd (
          assemble-ok (w.range (results_from w (p ∷ ps) (op ∷ ops)))
            (results_from w (p ∷ ps) (op ∷ ops)) (op ∷ ops) (results_from-some p ps op ops order)
            h),
      λ h. cc,
    )

    -- The orchestrator panics, by writing to the nil map of the metadata, exactly where a request
    -- has no operations, whichever children fail or time out.
    pub operator_orchestrator_workflow-panic :
        (request : OrchestratorRequest A)
        → KeepsEntries w
        → (operator_orchestrator_workflow w request ≡ panic) ↔ (request.operations ≡ [])
    unfolding operator_orchestrator_workflow operator_results
    operator_orchestrator_workflow-panic request order =
        let first = partitions_of-some request in
        subst
          (λ parts. (outcome_from w parts request.operations ≡ panic) ↔ (request.operations ≡ []))
          (sym first.2) (outcome_from-panic first.0 first.1 request.operations order)
