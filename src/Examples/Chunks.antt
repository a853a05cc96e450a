-- ===== src/Examples/Chunks.antt =====
-- Chunks of events.
use go_temporal_timeline.Prelude.{◌≡◌, refl, ℕ, ◌≤◌, some, List, [], ◌∷◌, map, length, arith, All}
use go_temporal_timeline.GoResult.{Outcome}
use go_temporal_timeline.GoSort.Insertion.{insertion_sorter}
use go_temporal_timeline.Temporal.Types.{QueryOperation, plain}
use go_temporal_timeline.Temporal.Chunks.{EventChunk, create_event_chunks, partition_events}
use go_temporal_timeline.Temporal.Chunks.Cut.{
  concat, IsNumbered, chunk_count, create_event_chunks-IsNumbered, partition_events-concat,
}
use go_temporal_timeline.Temporal.Chunks.Assemble.{AssembledResult, process_events_concurrently}
use go_temporal_timeline.Temporal.Chunks.Assemble.Existed.{
  IsBlind, process_events_concurrently-IsBlind,
}
use go_temporal_timeline.Temporal.Badges.Workflows.{existed_operation}
use go_temporal_timeline.Examples.Samples.{toy_floats}
use go_temporal_timeline.Examples.Service.{toy_service}
use go_temporal_timeline.Examples.Badges.{day_parser, as_event, paid}

abbrev five : List ℕ
five = 10 ∷ 11 ∷ 12 ∷ 13 ∷ 14 ∷ []

partition-five : partition_events 9 five 2 ≡ some ((10 ∷ 11 ∷ []) ∷ (12 ∷ 13 ∷ []) ∷ (14 ∷ []) ∷ [])
unfolding partition_events
partition-five = refl

create_event_chunks-IsNumbered_example :
    (cs : List (EventChunk ℕ)) × (create_event_chunks 9 five 2 ≡ some cs)
    × (concat (map (λ c. c.events) cs) ≡ five)
    × IsNumbered 2 (chunk_count (length five) 2) 0 cs
create_event_chunks-IsNumbered_example =
    create_event_chunks-IsNumbered 9 five 2 (omega arith) (omega arith)

partition_events-concat_example :
    (ps : List (List ℕ)) × (partition_events 9 five 2 ≡ some ps)
    × (concat ps ≡ five)
    × All (λ part. length part ≤ 2) ps
partition_events-concat_example = partition_events-concat 9 five 2 (omega arith) (omega arith)

abbrev payment_query : QueryOperation
payment_query = plain (existed_operation "paid" "payment_successful")

process_events_concurrently-IsBlind_example :
    (o : Outcome AssembledResult) × (process_events_concurrently as_event ⦃p = day_parser⦄
        ⦃f = toy_floats⦄ ⦃t = toy_service⦄ 3
        (paid ∷ [])
        (payment_query ∷ [])
      ≡ some o)
    × IsBlind o
process_events_concurrently-IsBlind_example =
    process_events_concurrently-IsBlind as_event ⦃p = day_parser⦄ ⦃f = toy_floats⦄ ⦃t = toy_service⦄
      3 (paid ∷ []) payment_query [] (omega arith) (omega arith) refl
