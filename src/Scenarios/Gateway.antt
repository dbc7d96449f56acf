-- ===== src/Scenarios/Gateway.antt =====
-- internal/gateway/run_handler.go on a session whose plan is reviewed, and on one that is cancelled.
use nomici_orchestrator.Common.{String, ◌≡◌, refl, ◌⊎◌, true, some, [], ◌∷◌, is_empty, trim_space}
use nomici_orchestrator.Common.Table
use nomici_orchestrator.Store.{World, pure, ok, final, attempt, ◌>>=◌, refuse_if, row}
use nomici_orchestrator.Store.Rows.{Session, Task}
use nomici_orchestrator.Blocked as Blocked
use nomici_orchestrator.Artifacts.Records as Records
use nomici_orchestrator.Trace as Trace
use nomici_orchestrator.Sandboxes.{get_by_run}
use nomici_orchestrator.Runs.Types.{status_plan_review, status_completed, execution_state_for}
use nomici_orchestrator.Runs.Sessions.{
  has_session, update_sessions, with_status, update_session_status, get_detail, get_by_session,
  scan_session, list_tasks,
}
use nomici_orchestrator.Runs.Tasks as Tasks
use nomici_orchestrator.Runs.Tasks.{
  set_task_blocked, update_tasks, update_task_status, add_task_artifact_ref,
}
use nomici_orchestrator.Gateway.Ledger.{
  truth, Codec, append_run_ledger_trace, update_task_metadata, task_metadata_string, task_role_id,
  task_summary, route_needs_plan_review, stop_if_session_runnable,
}
use nomici_orchestrator.Gateway.Lifecycle.{
  Files, first_plan, latest_plan_artifact_id, block_for_plan_review,
}
use nomici_orchestrator.Gateway.Completion.{create_role_artifact, artifact_path}
use nomici_orchestrator.Gateway.Roles.{finished, Roles, leave_role}
use nomici_orchestrator.Gateway.Session.{
  after_run, with_post_tools, run_role, execute_step, execute_tasks, execute_workspace_session,
}
use nomici_orchestrator.Gateway.Paused.{block_for_plan_review-Paused}
use nomici_orchestrator.Gateway.Ended.{execute_workspace_session-Ended}
use nomici_orchestrator.Gateway.Refused.{Refuses, execute_step-Refuses}
use nomici_orchestrator.Scenarios.Base.{varied}

abbrev pub codec : Codec
codec = record { encode = λ o. "{}"; decode = λ s. [] }

abbrev pub session : Session
session = record {
  session_id = "session_1";
  run_id = "run_1";
  project_id = "project_1";
  graph_snapshot_id = "graph_1";
  title = "Report";
  source_channel = "console";
  status = "running";
  execution_state = "running";
  started_at = "2026-01-01T00:00:00Z";
  updated_at = "2026-01-01T00:00:00Z";
  completed_at = "";
  metadata = "{}";
}

abbrev pub task : Task
task = record {
  task_id = "task_1";
  run_id = "run_1";
  parent_task_id = "";
  agent_id = "planner";
  runtime_id = "api";
  status = "completed";
  context_snapshot_id = "";
  blocked_reason = "";
  selected_context_snapshot_id = "";
  artifact_refs = [];
  approval_refs = [];
  started_at = "2026-01-01T00:00:00Z";
  updated_at = "2026-01-01T00:00:00Z";
  completed_at = "";
  metadata = "{}";
}

abbrev pub planned : World
planned = record varied {
  db = record varied.db { run_sessions = session ∷ []; run_tasks = task ∷ [] };
}

abbrev reviewed : World
reviewed = final (block_for_plan_review codec session task "run_1" planned)

blocks : block_for_plan_review codec session task "run_1" planned ≡ ok tt reviewed
unfolding block_for_plan_review append_run_ledger_trace latest_plan_artifact_id first_plan
    update_session_status update_sessions set_task_blocked update_tasks Blocked.create
    Blocked.insert_action Blocked.new_action Records.list Trace.append Trace.insert_event
    Trace.next_sequence attempt ◌>>=◌ refuse_if is_empty Table.insert Table.find Table.update
    Table.select Table.order_by
blocks = refl

present : Table.find (has_session "session_1") planned.db.run_sessions ≡ some session
unfolding Table.find
present = refl

block_for_plan_review-Paused_example :
    ((at : String) × (Table.find (has_session "session_1") reviewed.db.run_sessions
        ≡ some (with_status status_plan_review at session)))
    × ¬ (stop_if_session_runnable "session_1" reviewed ≡ ok tt planned)
block_for_plan_review-Paused_example =
    block_for_plan_review-Paused codec session task "session_1" "run_1" planned reviewed present
      refl blocks refl

-- a planner whose plan is reviewed
abbrev reviewing : Codec
reviewing = record { encode = λ o. "{}"; decode = λ s. ("needs_plan_review", truth true) ∷ [] }

abbrev files : Files
files = record { make_dir = λ d. pure tt; write_file = λ p s. pure tt }

abbrev roles : Roles
roles = record {
  role_prompt = λ s p t summaries. pure p;
  prepare_tools = λ s t phase. pure [];
  execute_pending = λ s t pending. pure [];
  execute_task = λ agent prompt s t. pure (finished t "First read, then write." []);
  message = λ e. "failed";
}

abbrev queued : Task
queued = record task { status = "queued" }

abbrev ended : World
ended = final (
    execute_workspace_session reviewing files [] roles "run_1" "Report" session (queued ∷ [])
      planned)

runs :
    (execute_workspace_session reviewing files [] roles "run_1" "Report" session
        (queued ∷ [])
        planned
      ≡ ok tt ended)
    × (Table.find (has_session "session_1") ended.db.run_sessions
        ≡ some (with_status status_plan_review "2026-01-02T03:04:05Z" session))
unfolding execute_workspace_session execute_tasks execute_step run_role after_run with_post_tools
    leave_role stop_if_session_runnable get_by_session get_detail scan_session list_tasks
    update_task_status update_task_metadata Tasks.update_task_metadata task_summary
    create_role_artifact artifact_path task_role_id task_metadata_string route_needs_plan_review
    get_by_run Records.create add_task_artifact_ref block_for_plan_review append_run_ledger_trace
    latest_plan_artifact_id first_plan update_session_status update_sessions set_task_blocked
    update_tasks Blocked.create Blocked.insert_action Blocked.new_action Records.list
    Records.new_artifact Records.insert_artifact Records.record_revision Records.new_revision
    Records.insert_revision Trace.append Trace.insert_event Trace.next_sequence attempt ◌>>=◌ row
    refuse_if is_empty trim_space Table.insert Table.find Table.update Table.select Table.order_by
    Tasks.add_ref Trace.completed Trace.max_sequence execution_state_for
runs = (refl, refl)

execute_workspace_session-Ended_example :
    (status_plan_review ≡ status_plan_review) ⊎ (status_plan_review ≡ status_completed)
execute_workspace_session-Ended_example =
    execute_workspace_session-Ended reviewing files [] roles "run_1" "Report" session (queued ∷ [])
      planned "session_1" runs.0 runs.1 refl

abbrev cancelled : World
cancelled = record varied {
  db = record varied.db {
    run_sessions = with_status "cancelled" "2026-01-01T00:00:00Z" session ∷ [];
  };
}

no_longer :
    Table.find (has_session "session_1") cancelled.db.run_sessions
    ≡ some (with_status "cancelled" "2026-01-01T00:00:00Z" session)
unfolding Table.find
no_longer = refl

execute_step-Refuses_example :
    Refuses (execute_step codec files [] roles "run_1" "Report" session queued [] []) cancelled
execute_step-Refuses_example =
    execute_step-Refuses codec files [] roles "run_1" "Report" session queued [] [] cancelled
      no_longer refl refl
