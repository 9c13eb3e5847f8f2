-- ===== src/Execution.antt =====
-- src/qveris_bench/execution: running the cells of a plan.
pub mod State
pub mod Retry
pub mod Store
pub mod Events
pub mod Orchestrator
pub mod DirectBinding
pub mod Tests
