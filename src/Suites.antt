-- ===== src/Suites.antt =====
-- src/qveris_bench/suites: from the frozen documents of a suite to its run plan.
pub mod Matrix
pub mod Documents
pub mod Resolution
pub mod Compiler
pub mod Tests
