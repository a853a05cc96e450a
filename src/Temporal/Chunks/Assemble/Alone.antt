-- ===== src/Temporal/Chunks/Assemble/Alone.antt =====
-- `ProcessEventsConcurrently` on events that fit in one chunk.
use go_temporal_timeline.Prelude.{
  ◌≡◌, refl, ap, ◌∙◌, ℕ, suc, ◌+◌, ◌-◌, ◌/◌, ◌≤◌, ◌<◌, arith, Bool, true, false, ◌||◌, String, none,
  some, ◌⊎◌, List, [], ◌∷◌, length, ltb, ltb→lt, ltb-false→le, take, str_eq, if◌then◌else◌,
  if_intro, last_from,
}
use go_temporal_timeline.GoSort.{Sorter}
use go_temporal_timeline.GoFloat.{FloatOps, zero_float}
use go_temporal_timeline.GoResult.{Error, errorf, Outcome, ok, fail, panic, ◌>>=◌, map_outcome}
use go_temporal_timeline.GoParse.{Parser}
use go_temporal_timeline.Timeline.Types.{Event}
use go_temporal_timeline.Temporal.Types.{
  QueryOperation, head_of, QueryResult, QueryValue, number, truth,
}
use go_temporal_timeline.Temporal.Service.{TemporalService, receive}
use go_temporal_timeline.Temporal.Chunks.{EventChunk, chunks_loop, create_event_chunks, chunk_end}
use go_temporal_timeline.Temporal.Query.Process.{process_query, determine_unit}
use go_temporal_timeline.Temporal.Chunks.Assemble.{
  ChunkResult, AssembledResult, classify_loop, process_events_chunk, chunk_result, receive_outcome,
  collect, collect_loop, aggregate_results, total_loop, any_truth, tally_loop, tally_step, succeed,
  assemble_tally, assembled, assemble_chunk_results, process_events_concurrently,
}

-- The names of operations whose results in the chunks are added up or or-ed.
abbrev pub is_combined : String → Bool
is_combined op =
    (str_eq op "DurationWhere"
      || (str_eq op "MovingAverage" || (str_eq op "TWAP" || str_eq op "VWAP")))
    || (str_eq op "HasExisted" || str_eq op "HasExistedWithin")

chunk_end-whole : (n : ℕ) → n ≤ 10000 → chunk_end 0 10000 n - 0 ≡ n
chunk_end-whole n h = ground (arith, h)

neither :
    {B : Type 0} {z : B} (a b : Bool) (x y : B)
    → (a || b) ≡ false
    → (if a then x else if b then y else z) ≡ z
neither true b x y h = cc
neither false true x y h = cc
neither false false x y h = refl

module _ {A : Type 0} where
  take_all : (xs : List A) → take (length xs) xs ≡ xs
  take_all [] = refl
  take_all (x ∷ xs) = ap (λ ys. x ∷ ys) (take_all xs)

  abbrev the_chunk : List A → EventChunk A
  the_chunk events = record {
    id = 0;
    events = events;
    total_chunks = (length events + 10000 - 1) / 10000;
    chunk_index = 0;
  }

  create_event_chunks-one :
      (fuel : ℕ) (events : List A)
      → 0 < length events
      → length events ≤ 10000
      → create_event_chunks (suc (suc fuel)) events 10000 ≡ some (the_chunk events ∷ [])
  unfolding create_event_chunks chunks_loop
  create_event_chunks-one fuel events h k =
      if_intro (λ o. o ≡ some (the_chunk events ∷ [])) (ltb 0 (length events))
        (λ more.
          if_intro (λ o. o ≡ some (the_chunk events ∷ [])) (ltb 10000 (length events))
            (λ over. absurd (omega (arith, k, ltb→lt 10000 (length events) over)))
            (λ done.
              ap (λ xs. some (record (the_chunk events) { events = xs } ∷ []))
                (ap (λ n. take n events) (chunk_end-whole (length events) k) ∙ take_all events)))
        (λ none_left. absurd (omega (arith, h, ltb-false→le 0 (length events) none_left)))

abbrev pub returned_value : Outcome QueryResult → Outcome QueryValue
returned_value o = map_outcome (λ r. r.result) o

-- What the assembly makes of the value that the only chunk returns, where it arrives.
abbrev pub alone : Outcome QueryValue → ℕ → Outcome AssembledResult
alone (ok v) k = ok (record {
  result = v;
  unit = determine_unit v;
  counts =
      some (record {
        total_events = 0;
        successful_chunks = 1;
        failed_chunks = 0;
        operation_count = k;
      });
})
alone (fail e) k = fail (errorf "all chunks failed processing" [])
alone panic k = fail (errorf "all chunks failed processing" [])

module _ ⦃f : FloatOps⦄ where
  aggregate_results-alone :
      (op : String) (r : ChunkResult)
      → is_combined op ≡ false
      → aggregate_results op r [] ≡ r.result
  unfolding aggregate_results
  aggregate_results-alone op r h =
      neither
        (str_eq op "DurationWhere"
          || (str_eq op "MovingAverage" || (str_eq op "TWAP" || str_eq op "VWAP")))
        (str_eq op "HasExisted" || str_eq op "HasExistedWithin")
        (number (total_loop zero_float (r ∷ []))) (truth (any_truth (r ∷ []))) h

  assemble_chunk_results-alone :
      {A : Type 0} (classify : A → Error ⊎ Event) ⦃p : Parser⦄ ⦃s : Sorter⦄ ⦃t : TemporalService⦄
      (chunk : EventChunk A) (o : Outcome QueryResult) (op : QueryOperation)
      (ops : List QueryOperation)
      → is_combined (head_of (last_from op ops)).op ≡ false
      → assemble_chunk_results
          (some (collect 0 (receive_outcome (chunk_result classify chunk o))) ∷ [])
          (op ∷ ops)
        ≡ alone (returned_value o >>= receive) (length (op ∷ ops))
  unfolding assemble_chunk_results tally_loop tally_step succeed assemble_tally assembled
  assemble_chunk_results-alone classify ⦃t⦄ chunk (ok r) op ops h = go (receive r.result) refl
    where
      go :
          (o : Outcome QueryValue)
          → receive r.result ≡ o
          → assemble_chunk_results
              (some (collect 0 (receive_outcome (chunk_result classify chunk (ok r)))) ∷ [])
              (op ∷ ops)
            ≡ alone o (length (op ∷ ops))
      go (ok v) e = rw e (
          rw
            (aggregate_results-alone (head_of (last_from op ops)).op
              (record { chunk_id = chunk.id; result = v; event_count = none; error = none }) h)
            refl)
      go (fail x) e = rw e refl
      go panic e = rw e refl
  assemble_chunk_results-alone classify chunk (fail e) op ops h = refl
  assemble_chunk_results-alone classify chunk panic op ops h = refl

module _ {A : Type 0} (classify : A → Error ⊎ Event) ⦃p : Parser⦄ ⦃f : FloatOps⦄ ⦃s : Sorter⦄
    ⦃t : TemporalService⦄ where
  pub process_events_concurrently-alone :
      (fuel : ℕ) (events : List A) (op : QueryOperation) (ops : List QueryOperation)
      → 0 < length events
      → length events ≤ 10000
      → is_combined (head_of (last_from op ops)).op ≡ false
      → process_events_concurrently classify (suc (suc fuel)) events (op ∷ ops)
        ≡ some (
            alone
              (returned_value (process_query (classify_loop classify [] events) (op ∷ ops))
                >>= receive)
              (length (op ∷ ops)))
  unfolding process_events_concurrently collect_loop process_events_chunk
  process_events_concurrently-alone fuel events op ops h k e =
      rw (create_event_chunks-one fuel events h k, process_events_concurrently)
        (ap some (assemble_chunk_results-alone classify (the_chunk events) _ op ops e))
