-- ===== src/Models.antt =====
-- src/qveris_bench/models: the frozen data models, one module for each file.
pub mod Enums
pub mod Value
pub mod Run
pub mod Suite
pub mod Provider
pub mod Evidence
pub mod Metric
pub mod Release
pub mod Selection
pub mod Tests
