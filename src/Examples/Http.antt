-- ===== src/Examples/Http.antt =====
-- A request in JSON to the handlers.
use go_temporal_timeline.Prelude.{◌≡◌, refl, true, false, String, some, ◌⊎◌, inl, inr, List, []}
use go_temporal_timeline.GoResult.{Error}
use go_temporal_timeline.Temporal.Workflows.{QueryRequest, ReplayRequest}
use go_temporal_timeline.Hcl.{empty_query}
use go_temporal_timeline.Hcl.Files.{HclReader}
use go_temporal_timeline.Hcl.ContentType.{Incoming}
use go_temporal_timeline.Http.{
  failed_run, respond_error, handle_query, handle_replay_query, handle_ingest_events, refuse,
}
use go_temporal_timeline.Http.Started.{IsAnswer, IsAbout, IsReplayAbout, handlers-IsAnswer}
use go_temporal_timeline.Examples.Hcl.{toy_reader}
use go_temporal_timeline.Examples.Classifier.{hour_parser}

-- An HCL library that parses nothing.
abbrev no_hcl : HclReader
no_hcl = record {
  File = String;
  parse_hcl = λ s. inl "no HCL";
  decode_query = λ s. inl "no HCL";
  decode_replay = λ s. inl "no HCL";
}

abbrev plain_text : Error → String
plain_text e = "error"

abbrev incoming : Incoming
incoming = record {
  media_type = some "text/plain";
  body = inr "{}";
  trim_space = λ s. s;
  is_hcl = λ s. false;
}

abbrev decode_query : Error ⊎ String → Error ⊎ QueryRequest
decode_query body = inr empty_query

abbrev decode_replay : Error ⊎ String → Error ⊎ ReplayRequest
decode_replay body =
    inr (record { timeline_id = "bob"; query = empty_query; chunk_size = 0; processing_mode = "" })

handlers-IsAnswer_example :
    IsAnswer
      (IsAbout "ann")
      (λ q. failed_run)
      (handle_query plain_text no_hcl ⦃n = toy_reader⦄ ⦃t = hour_parser⦄ decode_query
        (λ q. failed_run)
        "ann"
        incoming)
    × IsAnswer
        (IsReplayAbout "ann")
        (λ q. failed_run)
        (handle_replay_query plain_text no_hcl ⦃n = toy_reader⦄ ⦃t = hour_parser⦄ decode_replay
          (λ q. failed_run)
          "ann"
          incoming)
handlers-IsAnswer_example =
    handlers-IsAnswer plain_text no_hcl ⦃n = toy_reader⦄ ⦃t = hour_parser⦄ decode_query
      decode_replay (λ q. failed_run) (λ q. failed_run) "ann" incoming

failed-query :
    (handle_query plain_text no_hcl ⦃n = toy_reader⦄ ⦃t = hour_parser⦄ decode_query
      (λ q. failed_run)
      "ann"
      incoming).response
    ≡ respond_error 500 "query execution failed"
unfolding handle_query
failed-query = refl

abbrev no_events : Error ⊎ List String
no_events = inr []

without-events :
    handle_ingest_events (λ s. true) "ann" no_events ≡ refuse "at least one event is required"
unfolding handle_ingest_events
without-events = refl
