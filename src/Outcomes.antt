-- ===== src/Outcomes.antt =====
-- src/qveris_bench/outcomes: what a task's facts amount to, and whom a failure is attributed to.
pub mod Attribution
pub mod Evaluator
pub mod Tests
