-- ===== src/Tests.antt =====
-- Runs of the modelled code on small inputs, and the theorems at inputs that meet their hypotheses.
pub mod ReplayTests
pub mod LaneTests
pub mod LockTests
pub mod ConfigTests
pub mod TimelineTests
pub mod SnapshotTests
pub mod ViewerTests
pub mod RecorderTests
pub mod RuntimeTests
pub mod WorkerTests
pub mod StateTests
pub mod PricingTests
