-- ===== src/Temporal/Micro/Result.antt =====
-- What the orchestrator returns.
use mathlib.Core.List.{Memᴰ}
use mathlib.Core.Path.{subst}
use go_temporal_timeline.Prelude.{
  ◌≡◌, refl, ap, sym, ◌∙◌, ◌≤◌, ◌<◌, arith, false, String, Option, none, some, List, [], ◌∷◌, ◌↔◌,
  length, length-append, str_eq, if_intro, last_from,
}
use go_temporal_timeline.GoResult.{Error, Outcome, ok}
use go_temporal_timeline.Temporal.Types.{OperationHead, QueryOperation, head_of}
use go_temporal_timeline.Temporal.Micro.{OperatorResult, Naming, Named, find_result}
use go_temporal_timeline.Temporal.Micro.Assemble.{
  last_id, or_else, usable, without_error, choose_result, micro_final, count_entry, micro_step,
  micro_loop, MicroTally, MicroResult, assemble_operator_results,
}
use go_temporal_timeline.Temporal.Micro.Orchestrator.{
  OrchestratorRequest, completed, Launched, put_launched, Surroundings, partitions_of, operator_id,
  operator_request, launch_partitions, launch, launch_loop, futures_loop, write_metadata,
  operator_results, operator_orchestrator_workflow,
}
use go_temporal_timeline.Temporal.Micro.Lookup.{futures_loop-finds}
use go_temporal_timeline.Temporal.Micro.Launch.{
  KeepIds, put_launched-here, launch_partitions-named, launch_loop-last, put_launched-IsGood,
}

count_entry-cases :
    (t : MicroTally) (n : Named) (o : Option Error)
    → (length t.successful ≤ length (count_entry t n o).successful)
      × (o ≡ none → 0 < length (count_entry t n o).successful)
count_entry-cases t n none =
    rw (length-append t.successful (n.value ∷ [])) (omega arith, λ h. omega arith)
count_entry-cases t n (some e) = (omega arith, λ h. cc)

micro_loop-grows :
    (t : MicroTally) (ns : List Named) → length t.successful ≤ length (micro_loop t ns).successful
unfolding micro_loop
micro_loop-grows t [] = omega arith
micro_loop-grows t (n ∷ ns) =
    omega (arith, micro_loop-grows (micro_step t n) ns, (count_entry-cases t n n.value.error).0)

micro_loop-some :
    (t : MicroTally) (ns : List Named) (n : Named)
    → Memᴰ n ns
    → n.value.error ≡ none
    → 0 < length (micro_loop t ns).successful
unfolding micro_loop
micro_loop-some t [] n h e = elim h [ ]
micro_loop-some t (x ∷ xs) n (Memᴰ.head same) e = omega (
  arith,
  micro_loop-grows (micro_step t x) xs,
  (count_entry-cases t x x.value.error).1 (ap (λ (y : Named). y.value.error) (sym same) ∙ e),
)
micro_loop-some t (x ∷ xs) n (Memᴰ.tail later) e = micro_loop-some (micro_step t x) xs n later e

-- What is found is the value of an entry.
find_result-mem :
    (key : String) (r : OperatorResult) (ns : List Named)
    → find_result key ns ≡ some r
    → (n : Named) × Memᴰ n ns × (n.value ≡ r)
unfolding find_result
find_result-mem key r [] = λ h. cc
find_result-mem key r (n ∷ ns) =
    if_intro (λ o. o ≡ some r → (x : Named) × Memᴰ x (n ∷ ns) × (x.value ≡ r)) (str_eq n.key key)
      (λ same h. (n, Memᴰ.head refl, cc))
      (λ differ h. let later = find_result-mem key r ns h in (later.0, Memᴰ.tail later.1, later.2))

module _ ⦃m : Naming⦄ {A : Type 0} (w : Surroundings A) where
  choose_result-found :
      (ns : List Named) (first : OperatorResult) (last : QueryOperation) (r : OperatorResult)
      → find_result (m.partition_name (last_id (head_of last)) 0) ns ≡ some r
      → r.error ≡ none
      → choose_result ns first last ≡ r
  unfolding choose_result
  choose_result-found ns first last r h e =
      ap (λ o. or_else (usable o) first) h ∙ ap (λ o. or_else (without_error r o) first) e

  -- What the orchestrator returns, with the result and the unit of the operator's result.
  abbrev pub Returns : OperatorResult → Outcome MicroResult → Type 0
  Returns r o = (res : MicroResult) × (o ≡ ok res) × (res.result ≡ r.result) × (res.unit ≡ r.unit)

  micro_final-found :
      (ns : List Named) (t : MicroTally) (xs : List OperatorResult) (op : QueryOperation)
      (ops : List QueryOperation) (r : OperatorResult)
      → find_result (m.partition_name (last_id (head_of (last_from op ops))) 0) ns ≡ some r
      → r.error ≡ none
      → 0 < length xs
      → Returns r (write_metadata (micro_final ns t xs (op ∷ ops)))
  unfolding micro_final
  micro_final-found ns t [] op ops r h e less = absurd (omega (arith, less))
  micro_final-found ns t (first ∷ rest) op ops r h e less =
      let chosen = choose_result-found ns first (last_from op ops) r h e in
      (_, refl, ap (λ x. x.result) chosen, ap (λ x. x.unit) chosen)

  -- `finalResult`, where the result of the last operation is found.
  assemble-found :
      (ranged ns : List Named) (op : QueryOperation) (ops : List QueryOperation)
      (r : OperatorResult)
      → ((n : Named) → Memᴰ n ns → Memᴰ n ranged)
      → find_result (m.partition_name (last_id (head_of (last_from op ops))) 0) ns ≡ some r
      → r.error ≡ none
      → Returns r (write_metadata (assemble_operator_results ranged ns (op ∷ ops)))
  unfolding assemble_operator_results find_result
  assemble-found ranged [] op ops r all_in h e = cc
  assemble-found ranged (n ∷ ns) op ops r all_in h e =
      let start : MicroTally = record { successful = []; failed = []; total_events = 0 } in
      let found =
        find_result-mem (m.partition_name (last_id (head_of (last_from op ops))) 0) r (n ∷ ns) h in
      micro_final-found (n ∷ ns) (micro_loop start ranged) (micro_loop start ranged).successful op
        ops r h e
        (micro_loop-some start ranged found.0 (all_in found.0 found.1)
          (ap (λ (x : OperatorResult). x.error) found.2 ∙ e))

  -- The orders in which the maps are ranged over: no entry is lost and none is added.
  abbrev pub KeepsEntries : Type 0
  KeepsEntries =
      ((ls : List Launched) (l : Launched) → Memᴰ l (w.order ls) ↔ Memᴰ l ls)
      × ((ns : List Named) (n : Named) → Memᴰ n (w.range ns) ↔ Memᴰ n ns)

  last_id-named : (h : OperationHead) → str_eq h.id "" ≡ false → last_id h ≡ h.id
  last_id-named h named = rw named refl

  operator_id-named :
      (o : QueryOperation) → str_eq (head_of o).id "" ≡ false → operator_id w o ≡ (head_of o).id
  operator_id-named o named = rw named refl

  abbrev pub results_from : List (List A) → List QueryOperation → List Named
  results_from parts operations =
      futures_loop w.now (w.order (launch_loop w parts [] operations)) []

  abbrev pub outcome_from : List (List A) → List QueryOperation → Outcome MicroResult
  outcome_from parts operations =
      let results = results_from parts operations in
      write_metadata (assemble_operator_results (w.range results) results operations)

  -- The first child of the last operation is found among the results.
  results-found :
      (op : QueryOperation) (ops : List QueryOperation) (p : List A) (ps : List (List A))
      (r : OperatorResult)
      → KeepIds w
      → KeepsEntries
      → (let last = last_from op ops in
          w.child (operator_request (operator_id w last) last 0 p (length (p ∷ ps))) ≡ completed r)
      → find_result
          (m.partition_name (operator_id w (last_from op ops)) 0)
          (results_from (p ∷ ps) (op ∷ ops))
        ≡ some r
  unfolding launch_partitions
  results-found op ops p ps r ids order child =
      let last = last_from op ops in
      let l = launch w (p ∷ ps) last in
      let loop = launch_loop-last w (p ∷ ps) [] op ops ids (λ x h. elim h [ ]) in
      let good =
        put_launched-IsGood w w.now r _ l loop.0
          (launch_partitions-named w l.key last (length (p ∷ ps)) 0 (p ∷ ps) ids) loop.2
          (ap (λ c. c ∷ launch_partitions w l.key last (length (p ∷ ps)) 1 ps) child) in
      rw loop.1 (
        futures_loop-finds w.now l.key r (w.order (put_launched l loop.0)) [] l
          (λ x h. good x ((order.0 (put_launched l loop.0) x).0 h))
          ((order.0 (put_launched l loop.0) l).1 (put_launched-here l loop.0)) refl)

  -- Where the last operation has an id, children return the ids that they were given, and the child
  -- of the last operation on the first partition completes without an error, the orchestrator
  -- returns the result and the unit of that child, and panics in no case: the children of the other
  -- partitions, and of the other operations, have no say in it, whatever they come to and in
  -- whatever order the futures are waited for.
  pub operator_orchestrator_workflow-last :
      (request : OrchestratorRequest A) (op : QueryOperation) (ops : List QueryOperation)
      (p : List A) (ps : List (List A)) (r : OperatorResult)
      → KeepIds w
      → KeepsEntries
      → request.operations ≡ op ∷ ops
      → partitions_of request ≡ p ∷ ps
      → str_eq (head_of (last_from op ops)).id "" ≡ false
      → w.child (
          operator_request (head_of (last_from op ops)).id (last_from op ops) 0 p (length (p ∷ ps)))
        ≡ completed r
      → r.error ≡ none
      → Returns r (operator_orchestrator_workflow w request)
  unfolding operator_orchestrator_workflow operator_results
  operator_orchestrator_workflow-last request op ops p ps r ids order ops_are parts_are named child
        no_error =
      let last = last_from op ops in
      let id_is = operator_id-named last named in
      let results = results_from (p ∷ ps) (op ∷ ops) in
      let returned =
        assemble-found (w.range results) results op ops r (λ n. (order.1 results n).1)
          (ap (λ id. find_result (m.partition_name id 0) results)
              (last_id-named (head_of last) named ∙ sym id_is)
            ∙ results-found op ops p ps r ids order
                (ap (λ id. w.child (operator_request id last 0 p (length (p ∷ ps)))) id_is ∙ child))
          no_error in
      subst (λ parts. Returns r (outcome_from parts request.operations)) (sym parts_are)
        (subst (λ o. Returns r (outcome_from (p ∷ ps) o)) (sym ops_are) returned)
