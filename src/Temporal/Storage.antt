-- ===== src/Temporal/Storage.antt =====
-- The interfaces `StorageService` and `IndexService` of pkg/temporal/activities.go, the activities
-- that use them, and what a storage promises. A call that fails leaves the state as it was.
pub mod Mock
use go_temporal_timeline.Prelude.{
  ap, ◌≡◌, ℕ, Bool, true, false, ◌&&◌, ◌||◌, String, Option, none, some, ◌⊎◌, inl, inr, List, [],
  ◌∷◌, ◌++◌, length, take, ltb, str_eq, if◌then◌else◌,
}
use go_temporal_timeline.GoValue.{Fields}
use go_temporal_timeline.Temporal.Types.{TimeRange}
use go_temporal_timeline.GoResult.{ok-injective, Error, Outcome, ok, fail, panic, wrap_error, ◌>>=◌}

pub record StorageService (A : Type 0) : Type 1 where
  pub State : Type 0
  pub append_events : State → String → List A → Outcome State
  pub load_events : State → String → Option TimeRange → Outcome (List A)
  pub read_events : State → String → Option TimeRange → List String → Outcome (List A)

pub record IndexService (A : Type 0) : Type 1 where
  pub Index : Type 0
  pub index_events : Index → List A → Error ⊎ Index
  pub query_events : Index → Fields → Option TimeRange → Outcome (List String)

-- What the rest of the program relies on: there is a view of the state that appending extends at
-- its end, at one timeline only, and that loading without a range returns.
pub record IsLawful {A : Type 0} (S : StorageService A) : Type 0 where
  pub view : S.State → String → List A
  pub view-append :
      (s s' : S.State) (id j : String) (events : List A)
      → S.append_events s id events ≡ ok s'
      → view s' j ≡ (if str_eq id j then view s j ++ events else view s j)
  pub load-view : (s : S.State) (id : String) → S.load_events s id none ≡ ok (view s id)

module _ {A : Type 0} (S : StorageService A) where
  module _ (I : IndexService A) where
    -- `AppendEventActivity`, with an indexer: a failure to index is only logged.
    unfoldable pub append_event_activity :
        S.State → I.Index → String → List A → Outcome (S.State × I.Index)
    append_event_activity s i id events =
        wrap_error "failed to append to storage: %w" [] (S.append_events s id events) >>= λ s'.
        elim (I.index_events i events) [ inl e ↦ ok (s', i) | inr i' ↦ ok (s', i') ]

    -- `QueryVictoriaLogsActivity`, with an indexer.
    unfoldable pub query_victoria_logs_activity :
        I.Index → Fields → Option TimeRange → Outcome (List String)
    query_victoria_logs_activity i filters range =
        wrap_error "VictoriaLogs query failed: %w" [] (I.query_events i filters range)

  unfoldable pub load_events_activity : S.State → String → Option TimeRange → Outcome (List A)
  load_events_activity s id range =
      wrap_error "failed to load events: %w" [] (S.load_events s id range)

  unfoldable pub read_iceberg_activity :
      S.State → String → Option TimeRange → List String → Outcome (List A)
  read_iceberg_activity s id range pointers =
      wrap_error "failed to read from Iceberg: %w" [] (S.read_events s id range pointers)

module _ {A : Type 0} (S : StorageService A) (I : IndexService A) where
  -- Where the activity succeeds, the storage has appended.
  pub append_event_activity-ok :
      (s : S.State) (i : I.Index) (id : String) (events : List A) (r : S.State × I.Index)
      → append_event_activity S I s i id events ≡ ok r
      → S.append_events s id events ≡ ok r.0
  unfolding append_event_activity
  append_event_activity-ok s i id events r h =
      go (S.append_events s id events) (I.index_events i events) h
    where
      go :
          (o : Outcome S.State) (x : Error ⊎ I.Index)
          → (wrap_error "failed to append to storage: %w" [] o >>= λ s'. elim x [
            | inl e ↦ ok (s', i)
            | inr i' ↦ ok (s', i')
          ])
            ≡ ok r
          → o ≡ ok r.0
      go (ok s') (inl e) k = ap (λ p. ok p.0) (ok-injective k)
      go (ok s') (inr i') k = ap (λ p. ok p.0) (ok-injective k)
      go (fail e) x k = cc
      go panic x k = cc
