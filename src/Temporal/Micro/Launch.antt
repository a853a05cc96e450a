-- ===== src/Temporal/Micro/Launch.antt =====
-- Which children the orchestrator launches.
use mathlib.Core.List.{Memᴰ}
use mathlib.Core.Path.{subst}
use go_temporal_timeline.Prelude.{
  ◌≡◌, ◌≢◌, refl, ap, sym, ◌∙◌, ℕ, ◌+◌, false, String, List, [], ◌∷◌, length, str_eq, if_intro,
  last_from,
}
use go_temporal_timeline.GoTime.{Time}
use go_temporal_timeline.Temporal.Types.{QueryOperation}
use go_temporal_timeline.Temporal.Micro.{OperatorRequest, OperatorResult, Naming}
use go_temporal_timeline.Temporal.Micro.Orchestrator.{
  ChildOutcome, completed, Launched, remove_launched, put_launched, Surroundings, operator_id,
  operator_request, launch_partitions, launch, launch_loop,
}
use go_temporal_timeline.Temporal.Micro.Lookup.{neq_self, AreNamed, AllGood}

remove_launched-mem :
    (key : String) (ls : List Launched) (x : Launched)
    → Memᴰ x (remove_launched key ls)
    → Memᴰ x ls × (x.key ≢ key)
unfolding remove_launched
remove_launched-mem key [] x = λ h. elim h [ ]
remove_launched-mem key (l ∷ ls) x =
    if_intro (λ rest. Memᴰ x rest → Memᴰ x (l ∷ ls) × (x.key ≢ key)) (str_eq l.key key)
      (λ same h. later (remove_launched-mem key ls x) h)
      (λ differ h. kept differ (remove_launched-mem key ls x) h)
  where
    later :
        (Memᴰ x (remove_launched key ls) → Memᴰ x ls × (x.key ≢ key))
        → Memᴰ x (remove_launched key ls)
        → Memᴰ x (l ∷ ls) × (x.key ≢ key)
    later rest h = let r = rest h in (Memᴰ.tail r.0, r.1)

    kept :
        str_eq l.key key ≡ false
        → (Memᴰ x (remove_launched key ls) → Memᴰ x ls × (x.key ≢ key))
        → Memᴰ x (l ∷ remove_launched key ls)
        → Memᴰ x (l ∷ ls) × (x.key ≢ key)
    kept differ rest (Memᴰ.head e) =
        (Memᴰ.head e, λ same. neq_self l.key key differ (ap (λ y. y.key) (sym e) ∙ same))
    kept differ rest (Memᴰ.tail h) = later rest h

pub put_launched-here : (l : Launched) (ls : List Launched) → Memᴰ l (put_launched l ls)
unfolding put_launched
put_launched-here l ls = Memᴰ.head refl

module _ ⦃m : Naming⦄ {A : Type 0} (w : Surroundings A) where
  -- A child that completes returns the id that it was given.
  abbrev pub KeepIds : Type 0
  KeepIds =
      (q : OperatorRequest A) (r : OperatorResult)
      → w.child q ≡ completed r
      → r.operator_id ≡ q.operator_id

  abbrev pub AllNamed : List Launched → Type 0
  AllNamed ls = (l : Launched) → Memᴰ l ls → AreNamed l.key 0 l.children

  pub launch_partitions-named :
      (id : String) (operation : QueryOperation) (total i : ℕ) (ps : List (List A))
      → KeepIds
      → AreNamed id i (launch_partitions w id operation total i ps)
  unfolding launch_partitions
  launch_partitions-named id operation total i [] h = refl
  launch_partitions-named id operation total i (p ∷ ps) h = (
    λ r c. h (operator_request id operation i p total) r c,
    launch_partitions-named id operation total (i + 1) ps h,
  )

  put_launched-named :
      (ps : List (List A)) (operation : QueryOperation) (ls : List Launched)
      → KeepIds
      → AllNamed ls
      → AllNamed (put_launched (launch w ps operation) ls)
  unfolding put_launched
  put_launched-named ps operation ls h named x (Memᴰ.head e) =
      subst (λ l. AreNamed l.key 0 l.children) (sym e)
        (launch_partitions-named (operator_id w operation) operation (length ps) 0 ps h)
  put_launched-named ps operation ls h named x (Memᴰ.tail t) =
      named x (remove_launched-mem (operator_id w operation) ls x t).0

  -- The last operation is put last.
  pub launch_loop-put :
      (ps : List (List A)) (ls : List Launched) (op : QueryOperation) (ops : List QueryOperation)
      → (fs : List Launched) × (launch_loop w ps ls (op ∷ ops)
          ≡ put_launched (launch w ps (last_from op ops)) fs)
  unfolding launch_loop
  launch_loop-put ps ls op [] = (ls, refl)
  launch_loop-put ps ls op (op' ∷ ops) =
      launch_loop-put ps (put_launched (launch w ps op) ls) op' ops

  pub launch_loop-last :
      (ps : List (List A)) (ls : List Launched) (op : QueryOperation) (ops : List QueryOperation)
      → KeepIds
      → AllNamed ls
      → (fs : List Launched) × (launch_loop w ps ls (op ∷ ops)
          ≡ put_launched (launch w ps (last_from op ops)) fs)
        × AllNamed fs
  unfolding launch_loop
  launch_loop-last ps ls op [] h named = (ls, refl, named)
  launch_loop-last ps ls op (op' ∷ ops) h named =
      launch_loop-last ps (put_launched (launch w ps op) ls) op' ops h
        (put_launched-named ps op ls h named)

  pub put_launched-IsGood :
      (now : Time) (r : OperatorResult) (cs : List ChildOutcome) (l : Launched) (fs : List Launched)
      → AreNamed l.key 0 l.children
      → AllNamed fs
      → l.children ≡ completed r ∷ cs
      → AllGood now l.key r (put_launched l fs)
  unfolding put_launched
  put_launched-IsGood now r cs l fs own named first x (Memᴰ.head e) = record {
    named = subst (λ y. AreNamed y.key 0 y.children) (sym e) own;
    first = λ same. (cs, ap (λ (y : Launched). y.children) e ∙ first);
  }
  put_launched-IsGood now r cs l fs own named first x (Memᴰ.tail t) =
      let old = remove_launched-mem l.key fs x t in
      record { named = named x old.0; first = λ same. absurd (old.1 same) }
