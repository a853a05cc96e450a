-- ===== src/Temporal/Chunks.antt =====
-- Chunks of events: `createEventChunks` and `assembleChunkResults` of pkg/temporal/activities.go
-- and `partitionEvents` of pkg/temporal/micro_workflows.go. An event is any type: the functions
-- only cut lists. The loops run on fuel, and `none` means that it ran out.
pub mod Cut
pub mod Assemble
use go_temporal_timeline.Prelude.{
  ℕ, zero, suc, ◌+◌, ◌-◌, ◌/◌, Bool, true, false, Option, none, some, List, [], ◌∷◌, ◌++◌, length,
  take, drop, ltb, leb, if◌then◌else◌,
}

pub record EventChunk (A : Type 0) : Type 0 where
  pub id : ℕ
  pub events : List A
  pub total_chunks : ℕ
  pub chunk_index : ℕ

-- `end`.
abbrev pub chunk_end : ℕ → ℕ → ℕ → ℕ
chunk_end i size n = if ltb n (i + size) then n else i + size

-- `events[from:to]`.
abbrev pub slice : {A : Type 0} → List A → ℕ → ℕ → List A
slice events from to = take (to - from) (drop from events)

unfoldable pub chunks_loop :
    {A : Type 0} → ℕ → List (EventChunk A) → List A → ℕ → ℕ → Option (List (EventChunk A))
chunks_loop zero chunks events size i = none
chunks_loop (suc fuel) chunks events size i =
    let rest =
      chunks_loop fuel
        (chunks
          ++ record {
            id = i / size;
            events = slice events i (chunk_end i size (length events));
            total_chunks = (length events + size - 1) / size;
            chunk_index = i / size;
          }
            ∷ [])
        events size (i + size) in
    if ltb i (length events) then rest else some chunks

unfoldable pub create_event_chunks : {A : Type 0} → ℕ → List A → ℕ → Option (List (EventChunk A))
unfolding chunks_loop
create_event_chunks fuel events size = chunks_loop fuel [] events size 0

unfoldable pub partitions_loop :
    {A : Type 0} → ℕ → List (List A) → List A → ℕ → ℕ → Option (List (List A))
partitions_loop zero partitions events size i = none
partitions_loop (suc fuel) partitions events size i =
    let rest =
      partitions_loop fuel (partitions ++ slice events i (chunk_end i size (length events)) ∷ [])
        events size (i + size) in
    if ltb i (length events) then rest else some partitions

unfoldable pub partition_events : {A : Type 0} → ℕ → List A → ℕ → Option (List (List A))
unfolding partitions_loop
partition_events fuel events size =
    if leb (length events) size then some (events ∷ []) else partitions_loop fuel [] events size 0
