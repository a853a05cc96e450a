-- ===== src/Temporal/Query.antt =====
-- `executeOperation` and its helpers of pkg/temporal/activities.go. The map `results` is an
-- association list; the debugging output is left out.
pub mod Params
pub mod Operators
pub mod Process
pub mod Convert
