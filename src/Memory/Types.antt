-- ===== src/Memory/Types.antt =====
-- internal/memory/store.go: the records of memory proposals.
use nomici_orchestrator.Common.{String, List}

abbrev pub status_proposed : String
status_proposed = "proposed"

abbrev pub status_approved : String
status_approved = "approved"

abbrev pub status_rejected : String
status_rejected = "rejected"

abbrev pub status_deleted : String
status_deleted = "deleted"

pub record Proposal : Type 0 where
  pub proposal_id : String
  pub project_id : String
  pub session_id : String
  pub run_id : String
  pub source_type : String
  pub title : String
  pub body : String
  pub status : String
  pub context_id : String
  pub artifact_refs : List String
  pub metadata : String
  pub created_at : String
  pub updated_at : String

pub record CreateRequest : Type 0 where
  pub project_id : String
  pub session_id : String
  pub run_id : String
  pub source_type : String
  pub title : String
  pub body : String
  pub artifact_refs : List String
  pub metadata : String
