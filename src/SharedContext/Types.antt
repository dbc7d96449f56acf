-- ===== src/SharedContext/Types.antt =====
-- internal/sharedcontext/types.go: the records of what agents share.
use nomici_orchestrator.Common.{String, List}

abbrev pub scope_project : String
scope_project = "project"

abbrev pub scope_run : String
scope_run = "run"

abbrev pub scope_handoff : String
scope_handoff = "handoff"

abbrev pub kind_run_summary : String
kind_run_summary = "run_summary"

abbrev pub kind_handoff_briefing : String
kind_handoff_briefing = "handoff_briefing"

abbrev pub status_active : String
status_active = "active"

abbrev pub status_deleted : String
status_deleted = "deleted"

abbrev pub confidence_generated : String
confidence_generated = "generated"

abbrev pub sensitivity_normal : String
sensitivity_normal = "normal"

pub record SubjectRef : Type 0 where
  pub kind : String
  pub value : String

pub record Source : Type 0 where
  pub kind : String
  pub run_id : String
  pub task_id : String
  pub agent_id : String
  pub event_id : String

pub record Item : Type 0 where
  pub context_id : String
  pub project_id : String
  pub run_id : String
  pub task_id : String
  pub agent_id : String
  pub agent_pair : String
  pub task_type : String
  pub scope : String
  pub kind : String
  pub title : String
  pub body : String
  pub tags : List String
  pub subject_refs : List SubjectRef
  pub artifact_refs : List String
  pub source : Source
  pub confidence : String
  pub sensitivity : String
  pub status : String
  pub expires_at : String
  pub supersedes : String
  pub metadata : List (String × String)
  pub created_at : String
  pub updated_at : String

pub record Note : Type 0 where
  pub title : String
  pub body : String

pub record CreatedBy : Type 0 where
  pub kind : String
  pub agent_id : String

pub record Snapshot : Type 0 where
  pub snapshot_id : String
  pub project_id : String
  pub run_id : String
  pub task_id : String
  pub from_agent : String
  pub to_agent : String
  pub summary : String
  pub decisions : List Note
  pub open_issues : List String
  pub recommendations : List String
  pub artifact_refs : List String
  pub context_item_refs : List String
  pub created_by : CreatedBy
  pub supersedes : String
  pub created_at : String

pub record Briefing : Type 0 where
  pub snapshot_id : String
  pub text : String
