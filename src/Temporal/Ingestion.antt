-- ===== src/Temporal/Ingestion.antt =====
-- `IngestionWorkflow` of pkg/temporal/workflows.go: the loop that receives signals with events, and
-- the executions that follow one another by ContinueAsNew. Each delivery of a signal is a step; the
-- outcome of the activity is the one after its retries.
pub mod Laws
use go_temporal_timeline.Prelude.{
  ℕ, ◌+◌, ◌≤◌, ◌<◌, Bool, true, false, String, List, [], ◌∷◌, ◌++◌, length, leb, if◌then◌else◌,
}
use go_temporal_timeline.GoTime.{Time}
use go_temporal_timeline.GoResult.{Outcome, ok, fail, panic}
use go_temporal_timeline.Temporal.Storage.{StorageService, IndexService, append_event_activity}

abbrev pub continue_as_new_threshold : ℕ
continue_as_new_threshold = 1000

pub record IngestionState : Type 0 where
  pub timeline_id : String
  pub event_count : ℕ
  pub last_event_at : Time

-- The start of an execution.
abbrev pub start_ingestion : String → Time → IngestionState
start_ingestion id now = record { timeline_id = id; event_count = 0; last_event_at = now }

-- What a round of the loop comes to: the workflow waits again, or it continues as new.
pub data Round : Type 0 where
  waiting : IngestionState → Round
  continued_as_new : String → Round

-- The end of a round, for the number of events and whether they were appended.
unfoldable pub finish_round : IngestionState → ℕ → Bool → Time → Round
finish_round state n false now = waiting state
finish_round state n true now =
    let state' = record state { event_count = state.event_count + n; last_event_at = now } in
    if leb continue_as_new_threshold state'.event_count
    then continued_as_new state.timeline_id
    else waiting state'

-- A signal, and the instant at which its round ends.
pub record Delivery (A : Type 0) : Type 0 where
  pub events : List A
  pub at : Time

module _ {A : Type 0} (S : StorageService A) (I : IndexService A) where
  -- The storage, the index, the execution that runs, and how many have ended before it.
  pub record World : Type 0 where
    pub stored : S.State
    pub index : I.Index
    pub state : IngestionState
    pub continued : ℕ

  abbrev next_execution : World → Time → Round → World
  next_execution w now (waiting state) = record w { state = state }
  next_execution w now (continued_as_new id) = record w {
    state = start_ingestion id now;
    continued = w.continued + 1;
  }

  -- The round, for the outcome of the activity: a failure is logged and the signal is dropped.
  unfoldable pub advance : World → Delivery A → Outcome (S.State × I.Index) → World
  unfolding finish_round
  advance w d (ok r) =
      next_execution (record w { stored = r.0; index = r.1 }) d.at
        (finish_round w.state (length d.events) true d.at)
  advance w d (fail e) = next_execution w d.at (finish_round w.state (length d.events) false d.at)
  advance w d panic = next_execution w d.at (finish_round w.state (length d.events) false d.at)

  abbrev pub append_outcome : World → Delivery A → Outcome (S.State × I.Index)
  append_outcome w d = append_event_activity S I w.stored w.index w.state.timeline_id d.events

  unfoldable pub ingest : World → List (Delivery A) → World
  unfolding advance append_event_activity
  ingest w [] = w
  ingest w (d ∷ ds) = ingest (advance w d (append_outcome w d)) ds
