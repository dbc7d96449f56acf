-- ===== src/Gateway/Lifecycle.antt =====
-- internal/gateway/run_handler.go: how a session is paused and completed, and what a role leaves behind.
-- Every service is there.
use Prim.Native.String.{len, slice}
use nomici_orchestrator.Common.{
  String, ◌==◌, Option, none, some, List, [], ◌∷◌, is_empty, ltb, if◌then◌else◌, ◌^+◌,
}
use nomici_orchestrator.Store.{
  external, wrong_status, no_rows, Exec, pure, raise, attempt, ◌>>=◌, ◌>>◌,
}
use nomici_orchestrator.Store.Rows.{Session, Task, CallRecord}
use nomici_orchestrator.SharedContext.Types.{Snapshot}
use nomici_orchestrator.SharedContext.Redaction.{Pattern, join_with}
use nomici_orchestrator.SharedContext.Items.{save_snapshot}
use nomici_orchestrator.Artifacts.Types as Artifacts
use nomici_orchestrator.Artifacts.Records as Records
use nomici_orchestrator.Blocked as Blocked
use nomici_orchestrator.Orchestration.Words.{fields}
use nomici_orchestrator.Runs.Types.{status_plan_review, status_blocked}
use nomici_orchestrator.Runs.Sessions as Sessions
use nomici_orchestrator.Runs.Tasks as Tasks
use nomici_orchestrator.Gateway.Ledger.{
  text, raw, Object, Codec, append_run_ledger_trace, update_task_metadata,
}

abbrev pub type_plan : String
type_plan = "plan"

abbrev pub type_report : String
type_report = "report"

-- os.MkdirAll and os.WriteFile
pub record Files : Type 0 where
  pub make_dir : String → Exec Unit
  pub write_file : String → String → Exec Unit

unfoldable pub first_plan : List Artifacts.Artifact → Exec String
unfolding pure raise
first_plan [] = raise no_rows
first_plan (a ∷ rest) = if a.artifact_type == type_plan then pure a.artifact_id else first_plan rest

-- latestPlanArtifactID of internal/gateway/workspace_handler.go
unfoldable pub latest_plan_artifact_id : String → Exec String
unfolding first_plan
latest_plan_artifact_id session_id = do artifacts ← Records.list session_id 20; first_plan artifacts

unfoldable pub trim_memory_title : String → String
unfolding fields join_with
trim_memory_title value =
    let title = join_with " " (fields value) in
    if ltb 64 (len title) then slice title 0 61 ^+ "..." else title

abbrev agent_of_next : Option Task → String
agent_of_next none = ""
agent_of_next (some t) = t.agent_id

-- a failure that is dropped
abbrev pub dropped : {A : Type 0} → Exec A → Exec Unit
dropped m = attempt tt (m >>= λ a. pure tt)

module _ (codec : Codec) where
  unfoldable pub block_for_plan_review : Session → Task → String → Exec Unit
  block_for_plan_review session task run_id = do
    Sessions.update_session_status run_id status_plan_review
    Tasks.set_task_blocked task.task_id status_plan_review "plan_review"
    artifact_id ← attempt "" (latest_plan_artifact_id session.session_id)
    dropped (
        Blocked.create (record {
          session_id = session.session_id;
          run_id = run_id;
          task_id = task.task_id;
          kind = "plan_review";
          title = "Review plan";
          body = "Approve or revise the plan before execution continues.";
          required_action = "approve_plan";
          resume_target_task_id = task.task_id;
          approval_id = "";
          artifact_id = artifact_id;
          tool_call_id = "";
          metadata = "";
        }))
    append_run_ledger_trace codec run_id "task.blocked" "" (
        ("session_id", text session.session_id)
        ∷ ("task_id", text task.task_id)
        ∷ ("status", text status_plan_review)
        ∷ ("reason", text "plan_review")
        ∷ ("artifact_id", text artifact_id)
        ∷ [])

  -- blockForToolApproval, of a record that is not nil; it returns an error in each case
  unfoldable pub block_for_tool_approval : Session → Task → CallRecord → Exec Unit
  block_for_tool_approval session task r = do
    Sessions.update_session_status session.run_id status_blocked
    Tasks.set_task_blocked task.task_id status_blocked
        (if is_empty r.approval_id then "tool_approval" else "tool_approval:" ^+ r.approval_id)
    dropped (
        Blocked.create (record {
          session_id = session.session_id;
          run_id = session.run_id;
          task_id = task.task_id;
          kind = "tool_approval";
          title = "Approve tool call";
          body = "Grant or deny the requested tool call, then resume the session.";
          required_action = "grant_or_deny_approval";
          resume_target_task_id = task.task_id;
          approval_id = r.approval_id;
          artifact_id = "";
          tool_call_id = r.tool_call_id;
          metadata = codec.encode (("tool_id", text r.tool_id) ∷ ("risk", text r.risk) ∷ []);
        }))
    append_run_ledger_trace codec session.run_id "task.blocked" task.agent_id (
        ("session_id", text session.session_id)
        ∷ ("task_id", text task.task_id)
        ∷ ("status", text status_blocked)
        ∷ ("reason", text "tool_approval")
        ∷ ("tool_call_id", text r.tool_call_id)
        ∷ ("tool_id", text r.tool_id)
        ∷ ("approval_id", text r.approval_id)
        ∷ ("approval_hint", text "Grant or deny the approval, then resume the session.")
        ∷ [])
    raise (wrong_status "tool approval pending")

  -- blockForToolLoopGuardrail, of a session and a task; it returns an error in each case
  unfoldable pub block_for_tool_loop_guardrail :
      Session → Task → String → String → Object → Exec Unit
  block_for_tool_loop_guardrail session task reason body metadata = do
    Sessions.update_session_status session.run_id status_blocked
    Tasks.set_task_blocked task.task_id status_blocked reason
    dropped (
        Blocked.create (record {
          session_id = session.session_id;
          run_id = session.run_id;
          task_id = task.task_id;
          kind = "retry_decision";
          title = "Review tool loop";
          body = body;
          required_action = "retry_skip_or_stop";
          resume_target_task_id = task.task_id;
          approval_id = "";
          artifact_id = "";
          tool_call_id = "";
          metadata = codec.encode metadata;
        }))
    changed ←
        update_task_metadata codec task
          (("summary", text body) ∷ ("failure_reason", text reason) ∷ [])
    append_run_ledger_trace codec session.run_id "task.blocked" task.agent_id (
        ("session_id", text session.session_id)
        ∷ ("task_id", text task.task_id)
        ∷ ("status", text status_blocked)
        ∷ ("reason", text reason)
        ∷ ("metadata", raw (codec.encode metadata))
        ∷ [])
    raise (external reason)

  -- what saveRoleContextSnapshot saves
  abbrev role_snapshot : Session → Task → Option Task → String → Snapshot
  role_snapshot session task next summary = record {
    snapshot_id = "";
    project_id = session.project_id;
    run_id = session.run_id;
    task_id = task.task_id;
    from_agent = task.agent_id;
    to_agent = agent_of_next next;
    summary = summary;
    decisions = [];
    open_issues = [];
    recommendations = [];
    artifact_refs = [];
    context_item_refs = [];
    created_by = record { kind = "gateway_generated"; agent_id = task.agent_id };
    supersedes = "";
    created_at = "";
  }

  abbrev select_for : Option Task → String → Exec Unit
  select_for none snapshot_id = pure tt
  select_for (some t) snapshot_id = Tasks.set_task_selected_context_snapshot t.task_id snapshot_id

  unfoldable pub save_role_context_snapshot :
      List Pattern → Session → Task → Option Task → String → Exec Unit
  save_role_context_snapshot patterns session task next summary =
      if is_empty summary then pure tt else (do
        saved ← save_snapshot patterns (role_snapshot session task next summary)
        Tasks.set_task_context_snapshot task.task_id saved.snapshot_id
        select_for next saved.snapshot_id
        append_run_ledger_trace codec session.run_id "context.snapshot.created" task.agent_id (
            ("snapshot_id", text saved.snapshot_id)
            ∷ ("task_id", text task.task_id)
            ∷ ("to_agent", text (agent_of_next next))
            ∷ []))
