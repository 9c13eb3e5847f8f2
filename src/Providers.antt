-- ===== src/Providers.antt =====
-- src/qveris_bench/providers: the registry of the Providers and their access paths.
pub mod Registry
