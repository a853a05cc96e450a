-- ===== src/Temporal/Chunks/Assemble.antt =====
-- `ProcessEventsActivity`, `ProcessEventsChunkActivity` and `assembleChunkResults` of
-- pkg/temporal/activities.go. The classifier is a parameter: it returns the event with the value
-- that `extractValue` finds. What an activity returns reaches the workflow as decoded JSON.
-- Heartbeats, logs and the clock are left out.
pub mod Existed
pub mod Alone
use go_temporal_timeline.Prelude.{
  ℕ, ◌+◌, Bool, true, false, ◌||◌, String, Option, none, some, ◌⊎◌, inl, inr, List, [], ◌∷◌, ◌++◌,
  length, last_from, str_eq, if◌then◌else◌,
}
use go_temporal_timeline.Prelude.Int.{pos}
use go_temporal_timeline.GoSort.{Sorter}
use go_temporal_timeline.GoFloat.{Float64, FloatOps, zero_float}
use go_temporal_timeline.GoResult.{
  Error, errorf, wrapped, Outcome, ok, fail, panic, ◌>>=◌, wrap_error,
}
use go_temporal_timeline.GoParse.{Parser}
use go_temporal_timeline.Timeline.Types.{Event, EventTimeline}
use go_temporal_timeline.Temporal.Types.{
  QueryOperation, head_of, QueryValue, nothing, whole, number, truth, QueryResult,
}
use go_temporal_timeline.Temporal.Query.Process.{determine_unit, process_query}
use go_temporal_timeline.Temporal.Service.{TemporalService, receive}
use go_temporal_timeline.Temporal.Chunks.{EventChunk, create_event_chunks}

-- Of the metadata `event_count` is the count where it is an `int`.
pub record ChunkResult : Type 0 where
  pub chunk_id : ℕ
  pub result : QueryValue
  pub event_count : Option ℕ
  pub error : Option Error

-- The counts of the metadata of an assembled result.
pub record ChunkCounts : Type 0 where
  pub total_events : ℕ
  pub successful_chunks : ℕ
  pub failed_chunks : ℕ
  pub operation_count : ℕ

pub record AssembledResult : Type 0 where
  pub result : QueryValue
  pub unit : String
  pub counts : Option ChunkCounts

-- The variables of the loop that counts.
pub record Tally : Type 0 where
  pub index : ℕ
  pub successful : List ChunkResult
  pub failed : List ℕ
  pub total_events : ℕ

module _ {A : Type 0} (classify : A → Error ⊎ Event) where
  unfoldable pub classify_loop : EventTimeline → List A → EventTimeline
  classify_loop classified [] = classified
  classify_loop classified (raw ∷ rest) =
      classify_loop
        (elim (classify raw) [ inl e ↦ classified | inr event ↦ classified ++ event ∷ [] ]) rest

  module _ ⦃p : Parser⦄ ⦃f : FloatOps⦄ ⦃s : Sorter⦄ where
    unfoldable pub process_events : List A → List QueryOperation → Outcome QueryResult
    unfolding classify_loop process_query
    process_events events operations =
        wrap_error "failed to process query: %w" []
          (process_query (classify_loop [] events) operations)

    -- The chunk's result from the outcome of its query.
    abbrev pub chunk_result : EventChunk A → Outcome QueryResult → Outcome ChunkResult
    chunk_result chunk (ok r) = ok (record {
      chunk_id = chunk.id;
      result = r.result;
      event_count = some (length chunk.events);
      error = none;
    })
    chunk_result chunk (fail e) = ok (record {
      chunk_id = chunk.id;
      result = nothing;
      event_count = none;
      error = some (wrapped "failed to process chunk %d: %w" [] e);
    })
    chunk_result chunk panic = panic

    unfoldable pub process_events_chunk : EventChunk A → List QueryOperation → Outcome ChunkResult
    unfolding classify_loop process_query
    process_events_chunk chunk operations =
        chunk_result chunk (process_query (classify_loop [] chunk.events) operations)

succeed : Tally → ChunkResult → Tally
succeed t r = record t {
  successful = t.successful ++ r ∷ [];
  total_events = elim r.event_count [ none ↦ t.total_events | some n ↦ t.total_events + n ];
}

tally_step : Tally → Option ChunkResult → Tally
tally_step t none = record t { failed = t.failed ++ t.index ∷ [] }
tally_step t (some r) = elim r.error [
  | none ↦ succeed t r
  | some e ↦ record t { failed = t.failed ++ r.chunk_id ∷ [] }
]

tally_loop : Tally → List (Option ChunkResult) → Tally
tally_loop t [] = t
tally_loop t (r ∷ rs) = let t' = tally_step t r in tally_loop (record t' { index = t.index + 1 }) rs

-- The loop that ors: it ends at the first result that is `true`.
any_truth : List ChunkResult → Bool
any_truth [] = false
any_truth (r ∷ rs) = elim r.result [ truth b ↦ if b then true else any_truth rs | _ ↦ any_truth rs ]

module _ ⦃f : FloatOps⦄ where
  total_loop : Float64 → List ChunkResult → Float64
  total_loop total [] = total
  total_loop total (r ∷ rs) = total_loop (elim r.result [ number x ↦ f.add total x | _ ↦ total ]) rs

  -- `finalResult` for the name of the last operation, over the first successful result and the
  -- others.
  aggregate_results : String → ChunkResult → List ChunkResult → QueryValue
  aggregate_results op first rest =
      if str_eq op "DurationWhere"
        || (str_eq op "MovingAverage" || (str_eq op "TWAP" || str_eq op "VWAP"))
      then number (total_loop zero_float (first ∷ rest))
      else if str_eq op "HasExisted" || str_eq op "HasExistedWithin"
      then truth (any_truth (first ∷ rest))
      else first.result

  assembled : QueryValue → Tally → ℕ → Outcome AssembledResult
  assembled final t n = ok (record {
    result = final;
    unit = determine_unit final;
    counts = some (record {
      total_events = t.total_events;
      successful_chunks = length t.successful;
      failed_chunks = length t.failed;
      operation_count = n;
    });
  })

  assemble_tally : Tally → List ChunkResult → List QueryOperation → Outcome AssembledResult
  assemble_tally t [] operations = fail (errorf "all chunks failed processing" [])
  assemble_tally t (first ∷ rest) [] = assembled nothing t 0
  assemble_tally t (first ∷ rest) (op ∷ ops) =
      assembled (aggregate_results (head_of (last_from op ops)).op first rest) t (length (op ∷ ops))

  abbrev empty_tally : Tally
  empty_tally = record { index = 0; successful = []; failed = []; total_events = 0 }

  unfoldable pub assemble_chunk_results :
      List (Option ChunkResult) → List QueryOperation → Outcome AssembledResult
  unfolding tally_loop tally_step succeed assemble_tally assembled aggregate_results any_truth
      total_loop
  assemble_chunk_results [] operations =
      ok (record { result = whole (pos 0); unit = ""; counts = none })
  assemble_chunk_results (r ∷ rs) operations =
      let t = tally_loop empty_tally (r ∷ rs) in assemble_tally t t.successful operations

-- `future.Get`, for the error of the result: JSON has no `error`, so a result with one cannot be
-- decoded, and the count of events is decoded as a `float64`, which is no `int`.
abbrev pub receive_chunk : ⦃t : TemporalService⦄ → ChunkResult → Option Error → Outcome ChunkResult
receive_chunk r (some e) = fail (wrapped "failed to decode chunk result: %w" [] e)
receive_chunk r none =
    receive r.result >>= λ v. ok (record r { result = v; event_count = none; error = none })

-- What `future.Get` returns for the outcome of the activity.
abbrev pub receive_outcome : ⦃t : TemporalService⦄ → Outcome ChunkResult → Outcome ChunkResult
receive_outcome (ok r) = receive_chunk r r.error
receive_outcome (fail e) = fail e
receive_outcome panic = panic

-- The result that is kept of a chunk's activity, with its index: where there is an error, only that.
abbrev pub collect : ℕ → Outcome ChunkResult → ChunkResult
collect i (ok r) = r
collect i (fail e) = record { chunk_id = i; result = nothing; event_count = none; error = some e }
collect i panic = record {
  chunk_id = i;
  result = nothing;
  event_count = none;
  error = some (errorf "panic" []);
}

module _ {A : Type 0} (classify : A → Error ⊎ Event) ⦃p : Parser⦄ ⦃f : FloatOps⦄ ⦃s : Sorter⦄
    ⦃t : TemporalService⦄ where
  unfoldable pub collect_loop :
      ℕ → List (EventChunk A) → List QueryOperation → List (Option ChunkResult)
  unfolding process_events_chunk
  collect_loop i [] operations = []
  collect_loop i (chunk ∷ chunks) operations =
      some (collect i (receive_outcome (process_events_chunk classify chunk operations)))
      ∷ collect_loop (i + 1) chunks operations

  -- `ProcessEventsConcurrently`. The batches decide when an activity runs, and each result is
  -- stored at the index of its chunk.
  unfoldable pub process_events_concurrently :
      ℕ → List A → List QueryOperation → Option (Outcome AssembledResult)
  unfolding collect_loop create_event_chunks assemble_chunk_results
  process_events_concurrently fuel events operations =
      elim (create_event_chunks fuel events 10000) [
        | none ↦ none
        | some chunks ↦ some (assemble_chunk_results (collect_loop 0 chunks operations) operations)
      ]
