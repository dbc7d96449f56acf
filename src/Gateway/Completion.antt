-- ===== src/Gateway/Completion.antt =====
-- internal/gateway/run_handler.go: what a role leaves behind, and how a run is completed. Every service
-- is there.
use nomici_orchestrator.Common.{
  String, ◌==◌, Bool, not, ◌&&◌, Option, none, some, List, [], ◌∷◌, map, is_empty, trim_space,
  if◌then◌else◌, ◌^+◌,
}
use nomici_orchestrator.Store.{Exec, pure, attempt, ◌>>=◌, ◌>>◌}
use nomici_orchestrator.Store.Rows.{Session, Task}
use nomici_orchestrator.Paths
use nomici_orchestrator.Artifacts.Types.{Artifact, review_draft, review_approved}
use nomici_orchestrator.Artifacts.Records as Records
use nomici_orchestrator.Memory.Proposals as Memory
use nomici_orchestrator.Sandboxes.{get_by_run, release_by_run}
use nomici_orchestrator.Runs.Types.{status_completed, status_failed}
use nomici_orchestrator.Runs.Sessions as Sessions
use nomici_orchestrator.Runs.Tasks as Tasks
use nomici_orchestrator.Gateway.Ledger.{
  text, Codec, append_run_ledger_trace, task_metadata_string, task_role_id,
}
use nomici_orchestrator.Gateway.Lifecycle.{Files, type_plan, type_report, trim_memory_title}

-- the kind of artifact that a role leaves: its type, its title, its state of review and its file
abbrev kind_of_role : String → Bool → Option (String × String × String × String)
kind_of_role role_id final =
    if role_id == "planner"
    then some (type_plan, "Plan", review_draft, "plan.md")
    else if final
    then some (type_report, "Final report", review_approved, "final-report.md")
    else none

unfoldable pub written : Files → String → String → String → Exec String
unfolding Paths.join
written files root name preview = do
  files.make_dir root
  let path = Paths.join root name
  files.write_file path preview
  pure path

-- the path of the file, where the run has a directory for artifacts
unfoldable pub artifact_path : Files → String → String → String → Exec String
unfolding written
artifact_path files run_id name preview = do
  root ← attempt "" (do s ← get_by_run run_id; pure s.artifact_root)
  if is_empty root then pure "" else written files root name preview

-- the body of a proposal: the first report that is not empty
first_report : List Artifact → String
first_report [] = ""
first_report (a ∷ rest) =
    if a.artifact_type == type_report && not (is_empty a.preview)
    then a.preview
    else first_report rest

module _ (codec : Codec) where
  create_artifact :
      Files → Session → Task → String → Option (String × String × String × String) → Exec Unit
  unfolding artifact_path
  create_artifact files session task preview none = pure tt
  create_artifact files session task preview (some (artifact_type, title, review_state, name)) = do
    path ← artifact_path files session.run_id name preview
    artifact ← Records.create (record {
      session_id = session.session_id;
      run_id = session.run_id;
      task_id = task.task_id;
      artifact_type = artifact_type;
      title = title;
      path = path;
      revision = 0;
      review_state = review_state;
      preview = preview;
      metadata = "";
    })
    Tasks.add_task_artifact_ref task.task_id artifact.artifact_id
    append_run_ledger_trace codec session.run_id "artifact.created" task.agent_id (
        ("artifact_id", text artifact.artifact_id)
        ∷ ("task_id", text task.task_id)
        ∷ ("type", text artifact.artifact_type)
        ∷ ("title", text artifact.title)
        ∷ ("review_state", text artifact.review_state)
        ∷ [])

  unfoldable pub create_role_artifact : Files → Session → Task → String → Bool → Exec Unit
  unfolding create_artifact
  create_role_artifact files session task preview final =
      create_artifact files session task preview (kind_of_role (task_role_id codec task) final)

  summary_lines : List Task → String
  unfolding task_metadata_string
  summary_lines [] = ""
  summary_lines (t ∷ ts) =
      let summary = task_metadata_string codec t "summary" in
      let rest = summary_lines ts in
      if is_empty summary then rest else (t.agent_id ^+ ": " ^+ summary ^+ "\n") ^+ rest

  unfoldable pub create_session_memory_proposal : String → Exec Unit
  unfolding first_report summary_lines trim_memory_title
  create_session_memory_proposal run_id = do
    detail ← Sessions.get_by_run run_id
    artifacts ← Records.list detail.session.session_id 20
    let report = first_report artifacts
    let body = trim_space (if is_empty report then summary_lines detail.tasks else report)
    if is_empty body then pure tt else (do
      proposal ← Memory.create (record {
        project_id = detail.session.project_id;
        session_id = detail.session.session_id;
        run_id = detail.session.run_id;
        source_type = "session_summary";
        title = "Reusable context from " ^+ trim_memory_title detail.session.title;
        body = body;
        artifact_refs = map (λ (a : Artifact). a.artifact_id) artifacts;
        metadata = "";
      })
      append_run_ledger_trace codec run_id "memory.proposal.created" "" (
          ("proposal_id", text proposal.proposal_id)
          ∷ ("status", text proposal.status)
          ∷ ("title", text proposal.title)
          ∷ []))

  abbrev released : String → Exec Unit
  released run_id = do
    release_by_run run_id
    append_run_ledger_trace codec run_id "sandbox.released" "" (("status", text "released") ∷ [])

  unfoldable pub complete_session_lifecycle : String → String → Exec Unit
  unfolding create_session_memory_proposal
  complete_session_lifecycle run_id session_status = do
    released run_id
    (if session_status == status_completed then create_session_memory_proposal run_id else pure tt)
    append_run_ledger_trace codec run_id "run.session.completed" ""
        (("status", text session_status) ∷ [])
    Sessions.complete_session run_id session_status

  trace_tasks : String → String → String → List String → Exec Unit
  trace_tasks run_id event_type task_status [] = pure tt
  trace_tasks run_id event_type task_status (id ∷ ids) = do
    append_run_ledger_trace codec run_id event_type ""
        (("task_id", text id) ∷ ("status", text task_status) ∷ [])
    trace_tasks run_id event_type task_status ids

  unfoldable pub complete_run_ledger : String → String → String → List String → Exec Unit
  unfolding trace_tasks
  complete_run_ledger run_id session_status task_status ids = do
    Tasks.complete_tasks run_id task_status
    trace_tasks run_id (if task_status == status_failed then "task.failed" else "task.completed")
        task_status ids
    Sessions.complete_session run_id session_status
    released run_id
    append_run_ledger_trace codec run_id "run.session.completed" ""
        (("status", text session_status) ∷ [])
