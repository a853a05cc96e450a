-- ===== src/Timeline.antt =====
-- The package pkg/timeline: the types, the timeline operators, the windows.
pub mod Types
pub mod Held
pub mod Merge
pub mod Combine
pub mod Events
pub mod Durations
pub mod Windows
pub mod Aggregations
pub mod Fintech
pub mod Classified
pub mod Classifier
