-- ===== src/Examples.antt =====
-- Tests of the model on small inputs, and each theorem at a concrete input.
mod Samples
mod Service
mod Merging
mod Combining
mod Events
mod Durations
mod Windows
mod Aggregations
mod Badges
mod Chunks
mod Naming
mod Micro
mod Workflows
mod Ingestion
mod Classifier
mod Fraud
mod Hcl
mod Http
