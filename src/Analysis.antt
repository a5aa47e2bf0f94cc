-- ===== src/Analysis.antt =====
-- atsuite/analysis: what the analyzer makes of a run.
pub mod Number
pub mod Costs
pub mod Pricing
pub mod Recorder
pub mod Lanes
pub mod Model
pub mod Timeline
