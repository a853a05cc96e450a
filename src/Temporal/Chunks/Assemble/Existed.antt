-- ===== src/Temporal/Chunks/Assemble/Existed.antt =====
-- What `ProcessEventsConcurrently` makes of `HasExisted` and `HasExistedWithin`.
use go_temporal_timeline.Prelude.{
  ◌≡◌, refl, ap, sym, ◌∙◌, ℕ, ◌+◌, ◌<◌, Bool, true, false, ◌||◌, String, Option, none, some, ◌⊎◌,
  inl, inr, List, [], ◌∷◌, ◌++◌, map, last_from, length, str_eq, if◌then◌else◌, arith, All,
  All-append, Bool-cases, true-or_iff, eq_iff,
}
use go_temporal_timeline.GoSort.{Sorter}
use go_temporal_timeline.GoFloat.{FloatOps}
use go_temporal_timeline.GoResult.{Error, errorf, Outcome, ok, fail, panic, ◌>>=◌, wrap_error}
use go_temporal_timeline.GoParse.{Parser}
use go_temporal_timeline.Timeline.Types.{Event, EventTimeline}
use go_temporal_timeline.Temporal.Types.{
  QueryOperation, head_of, QueryValue, nothing, truth, Entry, find, QueryResult,
}
use go_temporal_timeline.Temporal.Query.Operators.{execute_operation}
use go_temporal_timeline.Temporal.Query.Operators.NoTruth.{
  is_truth, HasNoTruth, execute_operation-HasNoTruth,
}
use go_temporal_timeline.Temporal.Query.Process.{final_result, operations_loop, process_query}
use go_temporal_timeline.GoValue.{Value, nil, bool, float, int, int64, text, array, object}
use go_temporal_timeline.Temporal.Service.{TemporalService, receive, received}
use go_temporal_timeline.Temporal.Chunks.{EventChunk, create_event_chunks}
use go_temporal_timeline.Temporal.Chunks.Cut.{concat, create_event_chunks-IsNumbered}
use go_temporal_timeline.Temporal.Chunks.Assemble.{
  ChunkResult, Tally, succeed, tally_step, tally_loop, empty_tally, any_truth, AssembledResult,
  aggregate_results, assemble_tally, assembled, classify_loop, process_events_chunk, chunk_result,
  assemble_chunk_results, receive_outcome, collect, collect_loop, process_events_concurrently,
}

-- What holds of the value that an outcome has, if it has one.
abbrev Holds {ℓ} : {A : Type 0} → (A → Type ℓ) → Outcome A → Type ℓ
Holds P (ok a) = P a
Holds P (fail e) = Unit
Holds P panic = Unit

Holds->>= :
    {A B : Type 0} (P : A → Type 0) (Q : B → Type 0) (o : Outcome A) (k : A → Outcome B)
    → Holds P o
    → ((a : A) → P a → Holds Q (k a))
    → Holds Q (o >>= k)
Holds->>= P Q (ok a) k h g = g a h
Holds->>= P Q (fail e) k h g = tt
Holds->>= P Q panic k h g = tt

abbrev IsUntrue : QueryValue → Type 0
IsUntrue v = is_truth v ≡ false

Holds-wrap_error :
    (m : String) (args : List String) (o : Outcome QueryValue)
    → HasNoTruth o
    → Holds IsUntrue (wrap_error m args o)
Holds-wrap_error m args (ok v) h = ground (arith, h.holds)
Holds-wrap_error m args (fail e) h = tt
Holds-wrap_error m args panic h = tt

abbrev AllUntrue : List Entry → Type 0
AllUntrue es = All (λ e. is_truth e.value ≡ false) es

find_plain :
    (id : String) (es : List Entry)
    → AllUntrue es
    → All IsUntrue (elim (find id es) [ none ↦ [] | some v ↦ v ∷ [] ])
unfolding find
find_plain id [] h = tt
find_plain id (e ∷ es) h = elim (Bool-cases (str_eq e.id id)) [
  | inl same ↦ rw same (h.0, tt)
  | inr other ↦ rw other (find_plain id es h.1)
]

final_result_plain :
    (es : List Entry) (last : String) → AllUntrue es → IsUntrue (final_result es last)
final_result_plain es last h =
    go (find "result" es) (find last es) (find_plain "result" es h) (find_plain last es h)
  where
    go :
        (x y : Option QueryValue)
        → All IsUntrue (elim x [ none ↦ [] | some v ↦ v ∷ [] ])
        → All IsUntrue (elim y [ none ↦ [] | some v ↦ v ∷ [] ])
        → IsUntrue (elim x [ none ↦ elim y [ none ↦ nothing | some v ↦ v ] | some v ↦ v ])
    go (some v) y h k = h.0
    go none (some v) h k = k.0
    go none none h k = refl

module _ ⦃p : Parser⦄ ⦃f : FloatOps⦄ ⦃s : Sorter⦄ where
  operations_loop_plain :
      (events : EventTimeline) (results : List Entry) (ops : List QueryOperation)
      → AllUntrue results
      → Holds AllUntrue (operations_loop events results ops)
  unfolding operations_loop
  operations_loop_plain events results [] h = h
  operations_loop_plain events results (op ∷ ops) h =
      Holds->>= IsUntrue AllUntrue
        (wrap_error "failed to execute operation %s: %w" ((head_of op).id ∷ [])
          (execute_operation events op results))
        _
        (Holds-wrap_error _ _ (execute_operation events op results)
          (execute_operation-HasNoTruth events op results))
        (λ v k.
          operations_loop_plain events (record { id = (head_of op).id; value = v } ∷ results) ops
            (k, h))

  process_query_plain :
      (events : EventTimeline) (ops : List QueryOperation)
      → Holds (λ r. IsUntrue r.result) (process_query events ops)
  unfolding process_query
  process_query_plain events [] = refl
  process_query_plain events (op ∷ ops) =
      Holds->>= AllUntrue (λ r. IsUntrue r.result) (operations_loop events [] (op ∷ ops)) _
        (operations_loop_plain events [] (op ∷ ops) tt)
        (λ es k. final_result_plain es (head_of (last_from op ops)).id k)

abbrev IsUntrueResult : Option ChunkResult → Type 0
IsUntrueResult none = Unit
IsUntrueResult (some r) = IsUntrue r.result

abbrev UntrueTally : Tally → Type 0
UntrueTally t = All (λ r. IsUntrue r.result) t.successful

tally_step_plain :
    (t : Tally) (r : Option ChunkResult)
    → UntrueTally t
    → IsUntrueResult r
    → UntrueTally (tally_step t r)
unfolding tally_step succeed
tally_step_plain t none h k = h
tally_step_plain t (some r) h k =
    elim r.error
      as (λ e. UntrueTally (elim e [
        | none ↦ succeed t r
        | some e' ↦ record t { failed = t.failed ++ r.chunk_id ∷ [] }
      ])) [
        | none ↦ All-append (λ c. IsUntrue c.result) t.successful (r ∷ []) h (k, tt)
        | some e ↦ h
      ]

tally_loop_plain :
    (t : Tally) (rs : List (Option ChunkResult))
    → UntrueTally t
    → All IsUntrueResult rs
    → UntrueTally (tally_loop t rs)
unfolding tally_loop
tally_loop_plain t [] h k = h
tally_loop_plain t (r ∷ rs) h k =
    tally_loop_plain (record (tally_step t r) { index = t.index + 1 }) rs
      (tally_step_plain t r h k.0) k.1

any_truth_plain : (rs : List ChunkResult) → All (λ r. IsUntrue r.result) rs → any_truth rs ≡ false
unfolding any_truth
any_truth_plain [] h = refl
any_truth_plain (r ∷ rs) h = go r.result h.0 (any_truth_plain rs h.1)
  where
    go :
        (v : QueryValue)
        → IsUntrue v
        → any_truth rs ≡ false
        → elim v [ truth b ↦ if b then true else any_truth rs | _ ↦ any_truth rs ] ≡ false
    go (truth b) e later = cc
    go _ e later = later

-- `HasExisted` or `HasExistedWithin`.
abbrev pub is_existence : String → Bool
is_existence op = str_eq op "HasExisted" || str_eq op "HasExistedWithin"

-- The outcome is the failure of all chunks, or a result with the value `false`.
pub data IsBlind : Outcome AssembledResult → Type 0 where
  all_failed : IsBlind (fail (errorf "all chunks failed processing" []))
  result_false : (a : AssembledResult) → a.result ≡ truth false → IsBlind (ok a)

module _ ⦃f : FloatOps⦄ where
  aggregate_results_plain :
      (op : String) (first : ChunkResult) (rest : List ChunkResult)
      → is_existence op ≡ true
      → All (λ r. IsUntrue r.result) (first ∷ rest)
      → aggregate_results op first rest ≡ truth false
  unfolding aggregate_results
  aggregate_results_plain op first rest e h =
      elim ((true-or_iff (str_eq op "HasExisted") (str_eq op "HasExistedWithin")).0 e) [
        | inl same ↦
            ap (λ o. aggregate_results o first rest) ((eq_iff op "HasExisted").0 same)
            ∙ ap truth (any_truth_plain (first ∷ rest) h)
        | inr same ↦
            ap (λ o. aggregate_results o first rest) ((eq_iff op "HasExistedWithin").0 same)
            ∙ ap truth (any_truth_plain (first ∷ rest) h)
      ]

  assemble_tally-IsBlind :
      (t : Tally) (rs : List ChunkResult) (op : QueryOperation) (ops : List QueryOperation)
      → is_existence (head_of (last_from op ops)).op ≡ true
      → All (λ r. IsUntrue r.result) rs
      → IsBlind (assemble_tally t rs (op ∷ ops))
  unfolding assemble_tally assembled
  assemble_tally-IsBlind t [] op ops e h = all_failed
  assemble_tally-IsBlind t (first ∷ rest) op ops e h =
      result_false _ (aggregate_results_plain (head_of (last_from op ops)).op first rest e h)

-- A value that arrives as a `bool` was one.
IsUntrue-receive : ⦃t : TemporalService⦄ (v : QueryValue) → IsUntrue v → Holds IsUntrue (receive v)
IsUntrue-receive ⦃t⦄ v h = go (t.to_json v) refl
  where
    go : (x : Error ⊎ Value) → t.to_json v ≡ x → Holds IsUntrue (received x)
    go (inl e) k = tt
    go (inr (bool b)) k = sym (ap is_truth (t.truth_of v b k)) ∙ h
    go (inr nil) k = refl
    go (inr (float x)) k = refl
    go (inr (int i)) k = refl
    go (inr (int64 i)) k = refl
    go (inr (text x)) k = refl
    go (inr (array vs)) k = refl
    go (inr (object fs)) k = refl

module _ {A : Type 0} (classify : A → Error ⊎ Event) ⦃p : Parser⦄ ⦃f : FloatOps⦄ ⦃s : Sorter⦄
    ⦃t : TemporalService⦄ where
  collect_received :
      (i : ℕ) (chunk : EventChunk A) (r : QueryResult) (o : Outcome QueryValue)
      → receive r.result ≡ o
      → Holds IsUntrue o
      → IsUntrue (collect i (receive_outcome (chunk_result classify chunk (ok r)))).result
  collect_received i chunk r (ok v) e h = rw e h
  collect_received i chunk r (fail x) e h = rw e refl
  collect_received i chunk r panic e h = rw e refl

  collect_plain :
      (i : ℕ) (chunk : EventChunk A) (o : Outcome QueryResult)
      → Holds (λ r. IsUntrue r.result) o
      → IsUntrue (collect i (receive_outcome (chunk_result classify chunk o))).result
  collect_plain i chunk (ok r) h =
      collect_received i chunk r (receive r.result) refl (IsUntrue-receive r.result h)
  collect_plain i chunk (fail e) h = refl
  collect_plain i chunk panic h = refl

  collect_loop_plain :
      (i : ℕ) (chunks : List (EventChunk A)) (ops : List QueryOperation)
      → All IsUntrueResult (collect_loop classify i chunks ops)
  unfolding collect_loop process_events_chunk
  collect_loop_plain i [] ops = tt
  collect_loop_plain i (chunk ∷ chunks) ops = (
    collect_plain i chunk (process_query (classify_loop classify [] chunk.events) ops)
        (process_query_plain (classify_loop classify [] chunk.events) ops),
    collect_loop_plain (i + 1) chunks ops,
  )

  assemble_chunk_results-IsBlind :
      (chunk : EventChunk A) (chunks : List (EventChunk A)) (op : QueryOperation)
      (ops : List QueryOperation)
      → is_existence (head_of (last_from op ops)).op ≡ true
      → IsBlind
          (assemble_chunk_results (collect_loop classify 0 (chunk ∷ chunks) (op ∷ ops)) (op ∷ ops))
  unfolding assemble_chunk_results collect_loop
  assemble_chunk_results-IsBlind chunk chunks op ops e =
      let rs = collect_loop classify 0 (chunk ∷ chunks) (op ∷ ops) in
      assemble_tally-IsBlind (tally_loop empty_tally rs) (tally_loop empty_tally rs).successful op
        ops e
        (tally_loop_plain empty_tally rs tt (collect_loop_plain 0 (chunk ∷ chunks) (op ∷ ops)))

  -- A query on many events cannot find that something has existed. If the last operation is
  -- `HasExisted` or `HasExistedWithin` and there are events, then the concurrent mode, with more
  -- fuel than events, either fails because every chunk failed or returns the value `false`,
  -- whatever the events are: the operations return timelines, and the assembly looks for `true`.
  pub process_events_concurrently-IsBlind :
      (fuel : ℕ) (events : List A) (op : QueryOperation) (ops : List QueryOperation)
      → 0 < length events
      → length events < fuel
      → is_existence (head_of (last_from op ops)).op ≡ true
      → (o : Outcome AssembledResult) × (process_events_concurrently classify fuel events (op ∷ ops)
          ≡ some o)
        × IsBlind o
  unfolding process_events_concurrently
  process_events_concurrently-IsBlind fuel events op ops h k e =
      let cut = create_event_chunks-IsNumbered fuel events 10000 (omega arith) k in
      go cut.0 cut.1 (ap length cut.2)
    where
      go :
          (cs : List (EventChunk A))
          → create_event_chunks fuel events 10000 ≡ some cs
          → length (concat (map (λ c. c.events) cs)) ≡ length events
          → (o : Outcome AssembledResult) × (process_events_concurrently classify fuel events
                (op ∷ ops)
              ≡ some o)
            × IsBlind o
      go [] c l = absurd (omega (arith, h, l))
      go (c ∷ cs) e' l = (
        assemble_chunk_results (collect_loop classify 0 (c ∷ cs) (op ∷ ops)) (op ∷ ops),
        rw (e', process_events_concurrently) refl,
        assemble_chunk_results-IsBlind c cs op ops e,
      )
