-- ===== src/Analysis/Timeline.antt =====
-- atsuite/analysis/timeline.py: the events of a run. Times are whole microseconds; the source's
-- floats are exact here, and rounding is to the nearest, half to even.
pub mod Times
pub mod Event
pub mod Client
pub mod Phases
pub mod Metadata
pub mod Build
