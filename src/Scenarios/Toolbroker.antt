-- ===== src/Scenarios/Toolbroker.antt =====
-- internal/toolbroker on concrete calls.
use nomici_orchestrator.Common.{
  to_lower, contains, String, trim_space, ◌≡◌, refl, true, none, [], ◌∷◌,
}
use nomici_orchestrator.Store.{World, pure}
use nomici_orchestrator.Store.Moves.{Moves, Moves-pure}
use nomici_orchestrator.Store.Rows.{CallRecord, Session}
use nomici_orchestrator.Toolbroker.Types.{ExecuteRequest, Library, Tools, status_waiting_approval}
use nomici_orchestrator.Toolbroker.Registry.{requires_approval}
use nomici_orchestrator.Toolbroker.Risk.{contains_dangerous_command, classify_bash_risk}
use nomici_orchestrator.Toolbroker.Execute.{execute, execute_approved_record}
use nomici_orchestrator.Toolbroker.Agree.{Agree}
use nomici_orchestrator.Toolbroker.Gate.{
  Allowed, Released, execute-Agree, execute_approved_record-Agree,
}
use nomici_orchestrator.Toolbroker.Unconsumed.{
  SameApprovals, SameApprovals-Preorder, execute_approved_record-SameApprovals,
}
use nomici_orchestrator.Scenarios.Base.{host, start}

abbrev pub library : Library
library = record {
  payload = λ fields. "{}";
  definition_json = λ d. "{}";
  preview = λ input. "{}";
  enabled = λ metadata key. true;
  redact = λ s. s;
  error_text = λ e. "error";
}

-- tools that return a text, and tools that return another one
abbrev returns : String → Tools
returns out = λ id session request call.
    pure (record { output = out; artifact_refs = none; redactions = none; failure = none })

abbrev request : ExecuteRequest
request = record {
  session_id = "session_1";
  run_id = "";
  task_id = "task_1";
  agent_id = "agent_1";
  tool_id = " bash ";
  input = ("command", "rm -rf /") ∷ [];
}

bash_needs : requires_approval (trim_space request.tool_id) ≡ true
unfolding requires_approval trim_space
bash_needs = refl

-- a world in which the session is there, and a call of it waits for an approval
abbrev session : Session
session = record {
  session_id = "session_1";
  run_id = "run_1";
  project_id = "proj";
  graph_snapshot_id = "graph_1";
  title = "run_1";
  source_channel = "console";
  status = "running";
  execution_state = "running";
  started_at = "2026-01-01T00:00:00Z";
  updated_at = "2026-01-01T00:00:00Z";
  completed_at = "";
  metadata = "{}";
}

abbrev call_record : CallRecord
call_record = record {
  tool_call_id = "toolcall_1";
  session_id = "session_1";
  run_id = "run_1";
  task_id = "task_1";
  tool_id = "bash";
  status = status_waiting_approval;
  risk = "high";
  input_preview = "{}";
  output_preview = "";
  artifact_refs = [];
  approval_id = "approval_1";
  error = "";
  redactions = [];
  metadata = "{}";
  created_at = "2026-01-01T00:00:00Z";
  updated_at = "2026-01-01T00:00:00Z";
  completed_at = "";
}

abbrev busy : World
busy = record start {
  db = record start.db { run_sessions = session ∷ []; tool_call_records = call_record ∷ [] };
}

execute-Agree_example :
    Agree
      (Allowed library host request busy)
      (execute library (returns "a") host request)
      (execute library (returns "b") host request)
      busy
execute-Agree_example =
    execute-Agree library host (returns "a") (returns "b") request busy bash_needs

execute_approved_record-Agree_example :
    Agree
      (Released "toolcall_1" busy)
      (execute_approved_record library (returns "a") "toolcall_1" request)
      (execute_approved_record library (returns "b") "toolcall_1" request)
      busy
execute_approved_record-Agree_example =
    execute_approved_record-Agree library (returns "a") (returns "b") "toolcall_1" request busy

execute_approved_record-SameApprovals_example :
    Moves SameApprovals (execute_approved_record library (returns "a") "toolcall_1" request)
execute_approved_record-SameApprovals_example =
    execute_approved_record-SameApprovals library (returns "a")
      (λ id session request call. Moves-pure SameApprovals-Preorder _) "toolcall_1" request

risk_tests :
    ((classify_bash_risk " RM -RF / ").level ≡ "critical")
    × ((classify_bash_risk "rm file").level ≡ "high")
    × ((classify_bash_risk "go test ./...").level ≡ "medium")
    × ((classify_bash_risk " ").level ≡ "low")
unfolding classify_bash_risk to_lower trim_space contains_dangerous_command contains
risk_tests = (refl, refl, refl, refl)
