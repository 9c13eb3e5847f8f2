-- ===== src/Releases.antt =====
-- src/qveris_bench/releases: the checks between the evidence and a published release.
pub mod Ranking
pub mod Metrics
pub mod Gate
pub mod Builder
pub mod Terminal
pub mod PublicTerminal
pub mod Replay
pub mod Tests
