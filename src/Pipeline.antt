-- ===== src/Pipeline.antt =====
-- atsuite/pipeline.py: from a benchmark's configuration to its targets and routes.
pub mod Data
pub mod Configs
pub mod Providers
pub mod Files
pub mod Nodes
pub mod Faas
pub mod Session
pub mod Routing
pub mod Tools
pub mod Resolve
