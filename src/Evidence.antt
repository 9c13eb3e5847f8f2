-- ===== src/Evidence.antt =====
-- src/qveris_bench/evidence: which evidence may be published.
pub mod Policy
