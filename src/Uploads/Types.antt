-- ===== src/Uploads/Types.antt =====
-- internal/uploads/store.go: the records of uploads.
use nomici_orchestrator.Common.{ℤ, String}

abbrev pub status_ready : String
status_ready = "ready"

pub record Upload : Type 0 where
  pub upload_id : String
  pub session_id : String
  pub run_id : String
  pub task_id : String
  pub filename : String
  pub path : String
  pub size_bytes : ℤ
  pub content_type : String
  pub status : String
  pub metadata : String
  pub created_at : String

pub record CreateRequest : Type 0 where
  pub session_id : String
  pub run_id : String
  pub task_id : String
  pub filename : String
  pub path : String
  pub size_bytes : ℤ
  pub content_type : String
  pub status : String
  pub metadata : String
