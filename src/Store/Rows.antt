-- ===== src/Store/Rows.antt =====
-- The rows of the tables that internal/store/migrations.go declares, each with the fields of the Go
-- struct that its package scans it into. A timestamp is the RFC 3339 text that is stored, and a
-- JSON column that holds a list is the list.
use nomici_orchestrator.Common.{ℕ, String, List}
use nomici_orchestrator.Graph.Json.{Json}

-- internal/store/migrations.go graph_snapshots; the text of ir_json is kept as the document it stands for
pub record GraphSnapshot : Type 0 where
  pub snapshot_id : String
  pub schema_version : String
  pub project_id : String
  pub source_hash : String
  pub ir_json : Json
  pub created_at : String

-- internal/policy/types.go
pub record Approval : Type 0 where
  pub approval_id : String
  pub run_id : String
  pub action_id : String
  pub action_type : String
  pub action_fingerprint : String
  pub status : String
  pub risk : String
  pub scope : String
  pub summary : String
  pub subject : List (String × String)
  pub requested_by_agent : String
  pub runtime_id : String
  pub reason : String
  pub requested_at : String
  pub resolved_at : String
  pub consumed_at : String
  pub bound_run_id : String

-- internal/worklocks/store.go
pub record Lock : Type 0 where
  pub lock_id : String
  pub run_id : String
  pub task_id : String
  pub tool_call_id : String
  pub resource : String
  pub mode : String
  pub status : String
  pub owner : String
  pub metadata : String
  pub acquired_at : String
  pub released_at : String

-- internal/runs/store.go
pub record Session : Type 0 where
  pub session_id : String
  pub run_id : String
  pub project_id : String
  pub graph_snapshot_id : String
  pub title : String
  pub source_channel : String
  pub status : String
  pub execution_state : String
  pub started_at : String
  pub updated_at : String
  pub completed_at : String
  pub metadata : String

pub record Task : Type 0 where
  pub task_id : String
  pub run_id : String
  pub parent_task_id : String
  pub agent_id : String
  pub runtime_id : String
  pub status : String
  pub context_snapshot_id : String
  pub blocked_reason : String
  pub selected_context_snapshot_id : String
  pub artifact_refs : List String
  pub approval_refs : List String
  pub started_at : String
  pub updated_at : String
  pub completed_at : String
  pub metadata : String

-- internal/toolbroker/types.go
pub record CallRecord : Type 0 where
  pub tool_call_id : String
  pub session_id : String
  pub run_id : String
  pub task_id : String
  pub tool_id : String
  pub status : String
  pub risk : String
  pub input_preview : String
  pub output_preview : String
  pub artifact_refs : List String
  pub approval_id : String
  pub error : String
  pub redactions : List String
  pub metadata : String
  pub created_at : String
  pub updated_at : String
  pub completed_at : String

-- internal/blocked/store.go
pub record Action : Type 0 where
  pub blocked_action_id : String
  pub session_id : String
  pub run_id : String
  pub task_id : String
  pub kind : String
  pub status : String
  pub title : String
  pub body : String
  pub required_action : String
  pub resume_target_task_id : String
  pub approval_id : String
  pub artifact_id : String
  pub tool_call_id : String
  pub metadata : String
  pub created_at : String
  pub updated_at : String
  pub resolved_at : String

-- internal/trace/types.go; `time` is the text that is stored
pub record Event : Type 0 where
  pub event_id : String
  pub run_id : String
  pub sequence : ℕ
  pub event_type : String
  pub time : String
  pub node_id : String
  pub runtime_id : String
  pub payload : String
  pub redactions : List String
  pub metadata : String

-- internal/sandbox/types.go
pub record Sandbox : Type 0 where
  pub sandbox_id : String
  pub run_id : String
  pub task_id : String
  pub provider : String
  pub mode : String
  pub status : String
  pub workspace_root : String
  pub artifact_root : String
  pub runtime_binary : String
  pub cleanup_status : String
  pub message : String
  pub created_at : String
  pub updated_at : String
  pub released_at : String
  pub metadata : String
