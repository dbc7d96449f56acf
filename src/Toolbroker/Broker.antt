-- ===== src/Toolbroker/Broker.antt =====
-- internal/toolbroker/broker.go: the execution of a tool call, from the request to its record. Every
-- store of the broker is there, as internal/gateway/tool_handler.go builds it.
use nomici_orchestrator.Common.{
  String, ◌==◌, not, ◌||◌, Option, none, some, List, [], ◌∷◌, if◌then◌else◌, is_empty, ◌^+◌,
}
use nomici_orchestrator.Paths.{Host}
use nomici_orchestrator.Store.{
  Error, no_rows, required, not_found, denied, ok, err, Exec, pure, raise, attempt, map_error,
  new_id, refuse_if, ◌>>=◌, ◌>>◌,
}
use nomici_orchestrator.Store.Rows.{Session, CallRecord, Sandbox}
use nomici_orchestrator.Sandboxes
use nomici_orchestrator.Trace
use nomici_orchestrator.Policy.Types.{ActionRequest, Decision}
use nomici_orchestrator.Policy.Service
use nomici_orchestrator.Runs.Sessions.{get_by_run, get_by_session}
use nomici_orchestrator.Toolbroker.Types.{
  Definition, ExecuteRequest, Library, Output, Tools, Value, text, texts, tool_list_files,
  tool_read_file, tool_write_file, tool_replace_file, tool_present_artifact, tool_bash, tool_search,
  tool_fetch,
}
use nomici_orchestrator.Toolbroker.Records.{mark_completed, mark_failed, mark_running}

-- a call whose result and error the source drops
unfoldable pub ignore : {A : Type 0} → Exec A → Exec Unit
ignore m = attempt tt (do _ ← m; pure tt)

-- the session that a request names
unfoldable pub session_of : String → String → Exec Session
session_of session_id run_id =
    if not (is_empty session_id)
    then (do detail ← get_by_session session_id; pure detail.session)
    else if not (is_empty run_id)
    then (do detail ← get_by_run run_id; pure detail.session)
    else raise (required "session_id or run_id")

sandbox_error : Error → Error
sandbox_error no_rows = not_found "sandbox record"
sandbox_error e = e

unfoldable pub sandbox : String → Exec Sandbox
unfolding sandbox_error
sandbox run_id = map_error sandbox_error (Sandboxes.get_by_run run_id)

-- stringInput
unfoldable pub string_input : List (String × String) → String → String → String
string_input [] key fallback = fallback
string_input (entry ∷ rest) key fallback =
    if entry.0 == key then entry.1 else string_input rest key fallback

-- An error of a tool is a part of what it returns.
unfoldable pub caught : Exec Output → Exec Output
caught m w = elim (m w) [
  | ok o w' ↦ ok o w'
  | err e w' ↦
      ok (record { output = ""; artifact_refs = none; redactions = none; failure = some e }) w'
]

unfoldable pub policy_action :
    Session → ExecuteRequest → Definition → String → String → String → ActionRequest
policy_action session request definition tool_call_id action_id workspace = record {
  run_id = session.run_id;
  action_id = action_id;
  action_type = "tool." ^+ definition.id;
  project_id = session.project_id;
  agent_id = request.agent_id;
  runtime_id = "";
  workspace = workspace;
  files_write = definition.filesystem_risk == "write" || definition.filesystem_risk == "read_write";
  summary = definition.description;
  subject =
      ("tool_call_id", tool_call_id)
      ∷ ("tool_id", definition.id)
      ∷ ("task_id", request.task_id)
      ∷ ("workspace", workspace)
      ∷ [];
}

module _ (lib : Library) where
  -- appendTrace, whose result every caller here drops
  unfoldable pub trace : String → String → String → List (String × Value) → Exec Unit
  trace run_id event_type agent_id payload =
      if is_empty run_id
      then pure tt
      else ignore (
          Trace.append (record {
            event_id = "";
            run_id = run_id;
            sequence = 0;
            event_type = event_type;
            time = "";
            node_id = agent_id;
            runtime_id = "";
            payload = lib.payload payload;
            redactions = [];
            metadata = "";
          }))

  unfoldable pub require_sandbox_permission : String → String → Exec Unit
  require_sandbox_permission run_id key = do
    found ← sandbox run_id
    refuse_if (not (lib.enabled found.metadata key)) (denied key)

  unfoldable pub execute_allowed : Tools → Session → ExecuteRequest → String → String → Exec Output
  execute_allowed tools session request id tool_call_id =
      let work = tools id session request tool_call_id in
      caught (
        if id == tool_write_file || id == tool_replace_file || id == tool_present_artifact
        then (require_sandbox_permission session.run_id "file_write_enabled" >> work)
        else if id == tool_bash
        then (require_sandbox_permission session.run_id "bash_enabled" >> work)
        else if id == tool_list_files
            || id == tool_read_file
            || id == tool_search
            || id == tool_fetch
        then work
        else raise (not_found id))

  unfoldable pub check_policy :
      Host → Session → ExecuteRequest → Definition → String → Exec Decision
  check_policy host session request definition tool_call_id = do
    workspace ← attempt "" (do found ← sandbox session.run_id; pure found.workspace_root)
    action_id ← new_id "action"
    Service.check host (policy_action session request definition tool_call_id action_id workspace)

  -- What Execute and ExecuteApprovedRecord do once the tool has run.
  unfoldable pub finish : String → String → String → String → Output → Exec CallRecord
  finish run_id agent_id tool_id tool_call_id result = conclude result.failure
    where
      conclude : Option Error → Exec CallRecord
      conclude (some e) = do
        ignore (mark_failed tool_call_id result.output (lib.error_text e) result.redactions)
        trace run_id "tool.call.failed" agent_id (
            ("tool_call_id", text tool_call_id)
            ∷ ("tool_id", text tool_id)
            ∷ ("error", text (lib.error_text e))
            ∷ ("output_preview", text (lib.redact result.output))
            ∷ [])
        raise e
      conclude none = do
        updated ← mark_completed tool_call_id result.output result.artifact_refs result.redactions
        trace run_id "tool.call.completed" agent_id (
            ("tool_call_id", text tool_call_id)
            ∷ ("tool_id", text tool_id)
            ∷ ("output_preview", text (lib.redact result.output))
            ∷ ("artifact_refs", texts result.artifact_refs)
            ∷ [])
        pure updated

  -- the part that they share, from the mark on that the call is running
  unfoldable pub perform :
      Tools → Session → ExecuteRequest → String → String → String → Exec CallRecord
  perform tools session request id tool_call_id risk = do
    _ ← mark_running tool_call_id risk
    result ← execute_allowed tools session request id tool_call_id
    finish request.run_id request.agent_id id tool_call_id result
