-- ===== src/Replay.antt =====
-- `run_node` of atsuite/invoker.py: the replay of a trace graph by a pool of workers.
pub mod Calls
pub mod Worker
pub mod Search
pub mod Setup
pub mod Loop
pub mod Run
pub mod Benchmark
