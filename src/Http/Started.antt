-- ===== src/Http/Started.antt =====
-- Which workflows the handlers start.
use go_temporal_timeline.Prelude.{
  ◌≡◌, refl, String, none, some, ◌⊎◌, inl, inr, [], ◌∷◌, str_eq, if_intro,
}
use go_temporal_timeline.GoResult.{Error, Outcome, ok, fail, panic}
use go_temporal_timeline.GoParse.{TimeParser}
use go_temporal_timeline.Temporal.Workflows.{QueryRequest, ReplayRequest, WorkflowResult}
use go_temporal_timeline.Hcl.{NumberReader}
use go_temporal_timeline.Hcl.Files.{HclReader, parse_hcl_query, parse_hcl_replay_request}
use go_temporal_timeline.Hcl.ContentType.{Incoming}
use go_temporal_timeline.Http.{
  Handled, Execution, not_started, failed_run, finished, error_content, result_content,
  respond_execution, decode_body, at_timeline, replay_at_timeline, execute_decoded, handle_query,
  handle_replay_query,
}

-- A request that is refused is answered by 400, and one that meets a panic not at all; for neither
-- is a workflow started. Otherwise one workflow is started, for a request that meets the condition:
-- 500 answers one that is not started or fails, and 200, with its result, one that returns.
pub data IsAnswer {Q : Type 0} (P : Q → Type 0) (execute : Q → Execution) : Handled Q → Type 0 where
  rejected :
      {message : String}
      → IsAnswer P execute (record {
        started = [];
        response = some (record { status = 400; content = error_content message });
      })
  aborted : IsAnswer P execute (record { started = []; response = none })
  failed :
      {message : String} (q : Q)
      → P q
      → (execute q ≡ not_started) ⊎ (execute q ≡ failed_run)
      → IsAnswer P execute (record {
        started = q ∷ [];
        response = some (record { status = 500; content = error_content message });
      })
  returned :
      (q : Q) (r : WorkflowResult)
      → P q
      → execute q ≡ finished r
      → IsAnswer P execute (record {
        started = q ∷ [];
        response = some (record { status = 200; content = result_content r });
      })

respond_execution-IsAnswer :
    {Q : Type 0} (P : Q → Type 0) (execute : Q → Execution) (start run : String) (q : Q)
    (x : Execution)
    → P q
    → execute q ≡ x
    → IsAnswer P execute (record { started = q ∷ []; response = respond_execution start run x })
respond_execution-IsAnswer P execute start run q not_started h e = failed q h (inl e)
respond_execution-IsAnswer P execute start run q failed_run h e = failed q h (inr e)
respond_execution-IsAnswer P execute start run q (finished r) h e = returned q r h e

execute_decoded-IsAnswer :
    {Q : Type 0} (P : Q → Type 0) (place : Q → Q) (execute : Q → Execution) (start run : String)
    (o : Outcome (String ⊎ Q))
    → ((q : Q) → P (place q))
    → IsAnswer P execute (execute_decoded place execute start run o)
execute_decoded-IsAnswer P place execute start run (ok (inl message)) h = rejected
execute_decoded-IsAnswer P place execute start run (ok (inr q)) h =
    respond_execution-IsAnswer P execute start run (place q) (execute (place q)) (h q) refl
execute_decoded-IsAnswer P place execute start run (fail e) h = aborted
execute_decoded-IsAnswer P place execute start run panic h = aborted

-- The query, or the replay and its query, is about the timeline.
abbrev pub IsAbout : String → QueryRequest → Type 0
IsAbout id q = q.timeline_id ≡ id

abbrev pub IsReplayAbout : String → ReplayRequest → Type 0
IsReplayAbout id r = (r.timeline_id ≡ id) × (r.query.timeline_id ≡ id)

module _ (error_text : Error → String) (R : HclReader) ⦃n : NumberReader⦄ ⦃t : TimeParser⦄ where
  -- Whatever a request contains, the workflow that the query handler starts, and the one that the
  -- replay handler starts, is about the timeline of the path and no other. At most one is started,
  -- and none for a request that is refused, with status 400, or whose reading panics. If the
  -- workflow returns a result, the response has status 200 and that result; if it cannot be started
  -- or fails, the response has status 500 and a message.
  pub handlers-IsAnswer :
      (decode : Error ⊎ String → Error ⊎ QueryRequest)
      (decode_replay : Error ⊎ String → Error ⊎ ReplayRequest) (execute : QueryRequest → Execution)
      (execute_replay : ReplayRequest → Execution) (id : String) (r : Incoming)
      → IsAnswer (IsAbout id) execute (handle_query error_text R decode execute id r)
        × IsAnswer
            (IsReplayAbout id)
            execute_replay
            (handle_replay_query error_text R decode_replay execute_replay id r)
  unfolding handle_query handle_replay_query
  handlers-IsAnswer decode decode_replay execute execute_replay id r = (
    if_intro (IsAnswer (IsAbout id) execute) (str_eq id "") (λ e. rejected)
        (λ e.
          execute_decoded-IsAnswer (IsAbout id) (at_timeline id) execute "failed to start query"
            "query execution failed" (decode_body error_text (parse_hcl_query R) decode r)
            (λ q. refl)),
    if_intro (IsAnswer (IsReplayAbout id) execute_replay) (str_eq id "") (λ e. rejected)
        (λ e.
          execute_decoded-IsAnswer (IsReplayAbout id) (replay_at_timeline id) execute_replay
            "failed to start replay query" "replay query execution failed"
            (decode_body error_text (parse_hcl_replay_request R) decode_replay r)
            (λ q. (refl, refl))),
  )
