-- ===== src/Http.antt =====
-- The handlers of pkg/http/server.go. The decoding of JSON, the text of an error and the Temporal
-- client are parameters. A handler that panics gives no response.
pub mod Started
use Prim.Native.String.{◌++◌ as append_text}
use go_temporal_timeline.Prelude.{
  ℕ, Bool, true, false, String, Option, none, some, ◌⊎◌, inl, inr, List, [], ◌∷◌, length, str_eq,
  if◌then◌else◌,
}
use go_temporal_timeline.GoResult.{Error, errorf, Outcome, ok, fail, panic}
use go_temporal_timeline.GoParse.{TimeParser}
use go_temporal_timeline.Temporal.Workflows.{QueryRequest, ReplayRequest, WorkflowResult}
use go_temporal_timeline.Hcl.{NumberReader}
use go_temporal_timeline.Hcl.Files.{HclReader, parse_hcl_query, parse_hcl_replay_request}
use go_temporal_timeline.Hcl.ContentType.{
  Incoming, content_type_hcl, content_type_json, detect_content_type,
}

pub data Content : Type 0 where
  error_content : String → Content
  result_content : WorkflowResult → Content
  queued_content : (timeline_id : String) (event_count : ℕ) → Content

pub record Response : Type 0 where
  pub status : ℕ
  pub content : Content

-- What a handler asks of the client, and what it responds.
pub record Handled (Q : Type 0) : Type 0 where
  pub started : List Q
  pub response : Option Response

-- What becomes of a workflow: the client cannot start it, it fails, or it returns.
pub data Execution : Type 0 where
  not_started : Execution
  failed_run : Execution
  finished : WorkflowResult → Execution

abbrev pub respond_error : ℕ → String → Option Response
respond_error status message = some (record { status = status; content = error_content message })

abbrev pub refuse : {Q : Type 0} → String → Handled Q
refuse message = record { started = []; response = respond_error 400 message }

module _ (error_text : Error → String) {Q : Type 0} where
  -- The request, or the message of the refusal.
  abbrev pub from_hcl : Outcome Q → Outcome (String ⊎ Q)
  from_hcl (ok q) = ok (inr q)
  from_hcl (fail e) = ok (inl (append_text "invalid HCL configuration: " (error_text e)))
  from_hcl panic = panic

  abbrev pub hcl_body : (String → Outcome Q) → Error ⊎ String → Outcome (String ⊎ Q)
  hcl_body parse (inl e) = ok (inl "failed to read request body")
  hcl_body parse (inr body) = from_hcl (parse body)

  -- `decode` is `json.NewDecoder(r.Body).Decode`.
  abbrev pub json_body : (Error ⊎ String → Error ⊎ Q) → Error ⊎ String → Outcome (String ⊎ Q)
  json_body decode body = elim (decode body) [
    | inl e ↦ ok (inl "invalid JSON body")
    | inr q ↦ ok (inr q)
  ]

  abbrev pub typed_body :
      (String → Outcome Q)
      → (Error ⊎ String → Error ⊎ Q)
      → Error ⊎ String
      → Outcome String
      → Outcome (String ⊎ Q)
  typed_body parse decode body (ok type) =
      if str_eq type content_type_hcl
      then hcl_body parse body
      else if str_eq type content_type_json
      then json_body decode body
      else ok (inl "unsupported content type")
  typed_body parse decode body (fail e) = ok (inl "could not process request body")
  typed_body parse decode body panic = panic

  -- The switch over the content type.
  unfoldable pub decode_body :
      (String → Outcome Q) → (Error ⊎ String → Error ⊎ Q) → Incoming → Outcome (String ⊎ Q)
  unfolding detect_content_type
  decode_body parse decode r = typed_body parse decode r.body (detect_content_type r)

-- The messages for a workflow that cannot be started, and for one that fails.
abbrev pub respond_execution : String → String → Execution → Option Response
respond_execution start run not_started = respond_error 500 start
respond_execution start run failed_run = respond_error 500 run
respond_execution start run (finished r) =
    some (record { status = 200; content = result_content r })

-- `request.TimelineID = timelineID`.
abbrev pub at_timeline : String → QueryRequest → QueryRequest
at_timeline id q = record q { timeline_id = id }

abbrev pub replay_at_timeline : String → ReplayRequest → ReplayRequest
replay_at_timeline id r = record r { timeline_id = id; query = at_timeline id r.query }

-- The end of a handler, for the decoded request.
abbrev pub execute_decoded :
    {Q : Type 0} → (Q → Q) → (Q → Execution) → String → String → Outcome (String ⊎ Q) → Handled Q
execute_decoded place execute start run (ok (inl message)) = refuse message
execute_decoded place execute start run (ok (inr q)) = record {
  started = place q ∷ [];
  response = respond_execution start run (execute (place q));
}
execute_decoded place execute start run (fail e) = record { started = []; response = none }
execute_decoded place execute start run panic = record { started = []; response = none }

module _ (error_text : Error → String) (R : HclReader) ⦃n : NumberReader⦄ ⦃t : TimeParser⦄ where
  unfoldable pub handle_query :
      (Error ⊎ String → Error ⊎ QueryRequest)
      → (QueryRequest → Execution)
      → String
      → Incoming
      → Handled QueryRequest
  unfolding decode_body parse_hcl_query
  handle_query decode execute id r =
      if str_eq id ""
      then refuse "timeline ID is required"
      else execute_decoded (at_timeline id) execute "failed to start query" "query execution failed"
          (decode_body error_text (parse_hcl_query R) decode r)

  unfoldable pub handle_replay_query :
      (Error ⊎ String → Error ⊎ ReplayRequest)
      → (ReplayRequest → Execution)
      → String
      → Incoming
      → Handled ReplayRequest
  unfolding decode_body parse_hcl_replay_request
  handle_replay_query decode execute id r =
      if str_eq id ""
      then refuse "timeline ID is required"
      else execute_decoded (replay_at_timeline id) execute "failed to start replay query"
          "replay query execution failed"
          (decode_body error_text (parse_hcl_replay_request R) decode r)

-- A signal with events for a timeline.
pub record Signalled (A : Type 0) : Type 0 where
  pub timeline_id : String
  pub events : List A

module _ {A : Type 0} where
  abbrev pub ingest_decoded : (Signalled A → Bool) → String → Error ⊎ List A → Handled (Signalled A)
  ingest_decoded signal id (inl e) = refuse "invalid JSON body"
  ingest_decoded signal id (inr []) = refuse "at least one event is required"
  ingest_decoded signal id (inr (e ∷ es)) =
      let s : Signalled A = record { timeline_id = id; events = e ∷ es } in
      record {
        started = s ∷ [];
        response =
            if signal s
            then some (record { status = 202; content = queued_content id (length (e ∷ es)) })
            else respond_error 500 "failed to process events";
      }

  -- `signal` is whether `SignalWithStartWorkflow` returns no error.
  unfoldable pub handle_ingest_events :
      (Signalled A → Bool) → String → Error ⊎ List A → Handled (Signalled A)
  handle_ingest_events signal id decoded =
      if str_eq id "" then refuse "timeline ID is required" else ingest_decoded signal id decoded
