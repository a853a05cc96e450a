-- ===== src/Temporal.antt =====
-- The package pkg/temporal: queries over timelines, and how they are run.
pub mod Types
pub mod Service
pub mod Storage
pub mod Ingestion
pub mod Query
pub mod Chunks
pub mod Micro
pub mod Workflows
pub mod Fraud
pub mod Badges
