-- ===== src/Uploads.antt =====
-- internal/uploads/store.go: the files that are uploaded for a run.
pub mod Types
pub mod Records
