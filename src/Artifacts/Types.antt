-- ===== src/Artifacts/Types.antt =====
-- internal/artifacts/store.go: the records of artifacts and of their revisions.
use nomici_orchestrator.Common.{ℕ, String}

abbrev pub review_draft : String
review_draft = "draft"

abbrev pub review_approved : String
review_approved = "approved"

abbrev pub review_revised : String
review_revised = "revised"

pub record Artifact : Type 0 where
  pub artifact_id : String
  pub session_id : String
  pub run_id : String
  pub task_id : String
  pub artifact_type : String
  pub title : String
  pub path : String
  pub revision : ℕ
  pub review_state : String
  pub preview : String
  pub metadata : String
  pub created_at : String
  pub updated_at : String

pub record Revision : Type 0 where
  pub revision_id : String
  pub artifact_id : String
  pub session_id : String
  pub run_id : String
  pub task_id : String
  pub revision : ℕ
  pub review_state : String
  pub path : String
  pub preview : String
  pub diff_preview : String
  pub metadata : String
  pub created_at : String

pub record CreateRequest : Type 0 where
  pub session_id : String
  pub run_id : String
  pub task_id : String
  pub artifact_type : String
  pub title : String
  pub path : String
  pub revision : ℕ
  pub review_state : String
  pub preview : String
  pub metadata : String
