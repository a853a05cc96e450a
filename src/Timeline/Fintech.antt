-- ===== src/Timeline/Fintech.antt =====
-- pkg/timeline/fintech.go: the financial operators.
pub mod Types
pub mod Weighted
pub mod Bands
pub mod Trend
pub mod Risk
pub mod Flow
