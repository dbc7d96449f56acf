-- ===== src/Runs/Types.antt =====
-- internal/runs/store.go: the states of sessions and tasks, and the requests that make them.
use nomici_orchestrator.Common.{String, ◌==◌, Bool, ◌||◌, List, if◌then◌else◌, any}
use nomici_orchestrator.Store.Rows.{Session, Task}

abbrev pub status_queued : String
status_queued = "queued"

abbrev pub status_running : String
status_running = "running"

abbrev pub status_waiting_for_approval : String
status_waiting_for_approval = "waiting_for_approval"

abbrev pub status_plan_review : String
status_plan_review = "plan_review"

abbrev pub status_blocked : String
status_blocked = "blocked"

abbrev pub status_needs_clarification : String
status_needs_clarification = "needs_clarification"

abbrev pub status_completed : String
status_completed = "completed"

abbrev pub status_failed : String
status_failed = "failed"

abbrev pub status_cancelled : String
status_cancelled = "cancelled"

-- status IN (…)
abbrev pub is_in : List String → String → Bool
is_in statuses status = any (λ s. status == s) statuses

-- executionStateForStatus
unfoldable pub execution_state_for : String → String
execution_state_for status =
    if status == status_running
    then "running"
    else if status == status_plan_review
    then "waiting_plan_review"
    else if status == status_blocked || status == status_needs_clarification
    then "blocked"
    else if status == status_completed || status == status_failed || status == status_cancelled
    then "terminal"
    else "idle"

pub record CreateSessionRequest : Type 0 where
  pub run_id : String
  pub project_id : String
  pub graph_snapshot_id : String
  pub title : String
  pub source_channel : String
  pub status : String
  pub metadata : String

pub record CreateTaskRequest : Type 0 where
  pub task_id : String
  pub run_id : String
  pub parent_task_id : String
  pub agent_id : String
  pub runtime_id : String
  pub status : String
  pub metadata : String

pub record SessionDetail : Type 0 where
  pub session : Session
  pub tasks : List Task
