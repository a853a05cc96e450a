-- ===== src/Lib.antt =====
-- A model of go-temporal-timeline, a service that answers questions about streams of events by
-- timeline operators, with the theorems that make its operators correct.
--
-- The program. An event has an instant, a type, a value and attributes. A query is a list of
-- operations; each turns the events, or the results of earlier operations, into a timeline (a list
-- of intervals) or a number. The package pkg/timeline has the operators; pkg/temporal runs them
-- inside Temporal workflows and activities, on all events at once or on chunks of them;
-- pkg/hcl and pkg/http are the front ends.
--
-- The files.
--   Prelude, Prelude/*      shared names, Boolean tests, lists, signed integers
--   GoTime                  time.Time and time.Duration as the program uses them
--   GoSort                  sort.Slice as a parameter: any ascending permutation
--   GoFloat, GoValue        float64 and interface{}
--   Timeline/Types          pkg/timeline/types.go
--   Timeline/Held           the specification: which instants a timeline covers
--   Timeline/Merge, /*      mergeBoolIntervals of pkg/timeline/operators.go
--   Timeline/Combine, /*    AND, OR, NOT, andTwoTimelines of the same file
--   Timeline/Events, /*     LatestEventToState, HasExisted, HasExistedWithin of the same file
--   Timeline/Durations, /*  DurationWhere, DurationInCurState, LongestConsecutiveTrueDuration
--   Timeline/Windows, /*    pkg/timeline/windows.go
--   Timeline/Aggregations, /*  pkg/timeline/aggregations.go
--   Timeline/Fintech, /*    pkg/timeline/fintech.go
--   GoParse                 time.ParseDuration, time.Parse and json.Unmarshal as parameters
--   Temporal/Types          QueryOperation of pkg/temporal/workflows.go, and the values of a query
--   Temporal/Query/*        executeOperation and ProcessQuery of pkg/temporal/activities.go
--   Temporal/Chunks, /*     chunks of events of the same file, and of micro_workflows.go
--   Temporal/Badges, /*     badges, of the same file and pkg/temporal/badging_workflows.go
--   Timeline/Classified     the events of pkg/timeline/classifier.go
--   Timeline/Classifier, /* EventClassifier and its parsers, of the same file
--   Temporal/Storage        the storage and index interfaces and the activities over them
--   Temporal/Storage/Mock   pkg/temporal/mock_storage.go
--   Temporal/Ingestion, /*  IngestionWorkflow of pkg/temporal/workflows.go
--   Temporal/Workflows, /*  QueryWorkflow and ReplayWorkflow of the same file
--   Temporal/Micro, /*      pkg/temporal/micro_workflows.go
--   Temporal/Fraud, /*      pkg/temporal/fraud_detection.go and fraud_workflow.go
--   Hcl, /*                 pkg/hcl: parser.go, merge.go and content_type.go
--   Http, /*                the handlers of pkg/http/server.go
--   Temporal/Service        the data converter and the task queues of Temporal, as parameters
--   Examples/*              tests, and each theorem at a concrete input
--
-- State is passed explicitly: the variables of a loop are a record or the arguments of a function
-- over the list that is left. Strings are the native strings; comparing them is Go's `==`.
--
-- Bounds and fuel. Instants are numbers of nanoseconds since the earliest instant of a time.Time,
-- and Add is exact on them (GoTime). Durations are signed words of 64 bits: Sub saturates and sums
-- wrap around. The loops of CreateSlidingWindows and CreateTumblingWindows run on fuel, and the
-- length of the range in nanoseconds, plus one, is enough since each round advances by at least
-- one. The loops that cut chunks run on fuel too, and more fuel than events is enough. All other
-- loops run along a list.
--
-- Parameters. The order in which sort.Slice leaves equal keys, the arithmetic of float64, the
-- parsing of texts and of JSON by Go's standard library, and the clock are parameters of the
-- definitions. What the Temporal server does is one too: the outcome of an activity or of a child
-- workflow is the one after its retries, its result arrives as what JSON makes of it, and an
-- activity without a limit on its start waits for ever on a queue that no worker polls. The raw
-- events are of any type; the workflows take what reads them as a function, and
-- Temporal/Query/Convert has the one of the program.
--
-- Not modelled: the set-up of the HTTP server and the command line programs, which are input and
-- output around the parts above; the streaming of partial results.
pub mod Prelude
pub mod GoTime
pub mod GoFloat
pub mod GoValue
pub mod GoResult
pub mod GoParse
pub mod GoSort
pub mod Timeline
pub mod Temporal
pub mod Hcl
pub mod Http
mod Examples
