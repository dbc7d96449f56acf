-- ===== src/Scenarios/Blocked.antt =====
-- internal/blocked/store.go on concrete actions.
use nomici_orchestrator.Common.{List, [], ◌∷◌}
use nomici_orchestrator.Common.Table.{Extends}
use nomici_orchestrator.Store.{World}
use nomici_orchestrator.Store.Rows.{Action}
use nomici_orchestrator.Blocked.{status_open}
use nomici_orchestrator.Blocked.Closed.{
  ActionCall, resolves, resolves_by_approval, resolves_by_artifact, Answers, answered_once,
  serve_all,
}
use nomici_orchestrator.Scenarios.Base.{start}

abbrev action : Action
action = record {
  blocked_action_id = "block_1";
  session_id = "session_1";
  run_id = "run_1";
  task_id = "task_1";
  kind = "tool_approval";
  status = status_open;
  title = "Approve";
  body = "";
  required_action = "approve";
  resume_target_task_id = "task_1";
  approval_id = "approval_1";
  artifact_id = "";
  tool_call_id = "toolcall_1";
  metadata = "{}";
  created_at = "2026-01-01T00:00:00Z";
  updated_at = "2026-01-01T00:00:00Z";
  resolved_at = "";
}

abbrev waiting : World
waiting = record start { db = record start.db { blocked_actions = action ∷ [] } }

abbrev calls : List ActionCall
calls =
    resolves_by_approval "approval_1" "rejected"
    ∷ resolves "block_1" ""
    ∷ resolves_by_artifact "art_1"
    ∷ []

answered_once_example :
    Extends Answers waiting.db.blocked_actions (serve_all calls waiting).db.blocked_actions
answered_once_example = answered_once calls waiting
