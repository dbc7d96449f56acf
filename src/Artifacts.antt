-- ===== src/Artifacts.antt =====
-- internal/artifacts/store.go: the artifacts of runs and their revisions.
pub mod Types
pub mod Records
pub mod History
pub mod Preserved
