-- ===== src/Gateway/Session.antt =====
-- internal/gateway/run_handler.go: executeWorkspaceSession, the loop over the roles of a session, and the
-- worker that runs it. Every service is there.
use nomici_orchestrator.Common.{
  String, ◌==◌, Bool, true, false, ◌&&◌, ◌||◌, not, Option, none, some, List, [], ◌∷◌, ◌++◌,
  is_empty, if◌then◌else◌,
}
use nomici_orchestrator.Store.{Error, wrong_status, Exec, pure, raise, attempt, ◌>>=◌, ◌>>◌}
use nomici_orchestrator.Store.Rows.{Session, Task}
use nomici_orchestrator.SharedContext.Redaction.{Pattern}
use nomici_orchestrator.Runs.Types.{
  is_in, status_running, status_completed, status_failed, status_cancelled, status_plan_review,
  status_blocked,
}
use nomici_orchestrator.Runs.Sessions.{get_by_session}
use nomici_orchestrator.Runs.Tasks as Tasks
use nomici_orchestrator.Gateway.Ledger.{
  text, Codec, append_run_ledger_trace, update_task_metadata, task_metadata_string, task_summary,
  stop_if_session_runnable, session_is_paused, task_ids, paused,
}
use nomici_orchestrator.Gateway.Lifecycle.{Files, dropped}
use nomici_orchestrator.Gateway.Roles.{
  Ran, finished, failed, Roles, append_tool_observations, is_last, with_tools, line_of, and_summary,
  finish_task, leave_role,
}
use nomici_orchestrator.Gateway.Completion.{
  create_role_artifact, complete_session_lifecycle, complete_run_ledger,
}

module _ (codec : Codec) (files : Files) (patterns : List Pattern) (roles : Roles) where
  -- In these functions `none` is the return after a review was asked for, and `some` the continue, with
  -- the summaries so far.

  unfoldable pub after_resume :
      String → Session → List Task → List String → Ran → Exec (Option (List String))
  after_resume run_id session rest summaries (failed t e) = raise e
  after_resume run_id session rest summaries (finished t preview observations) = do
    let summary = with_tools (task_summary t preview) observations
    changed ← update_task_metadata codec t (
        ("summary", text summary)
        ∷ ("output_preview", text preview)
        ∷ ("tool_loop_prompt", text "")
        ∷ ("tool_loop_pending_json", text "")
        ∷ [])
    create_role_artifact codec files session changed preview (is_last rest)
    leave_role codec patterns run_id session changed rest (summaries ++ line_of t summary ∷ [])
        summary (("reason", text "tool_loop_resumed") ∷ [])

  -- the prompt of a loop of tools that waited, with what the calls that were left have brought
  unfoldable pub resume_prompt : Session → Task → Exec (Task × String)
  resume_prompt session task =
      let prompt = task_metadata_string codec task "tool_loop_prompt" in
      let pending = task_metadata_string codec task "tool_loop_pending_json" in
      if is_empty pending then pure (task, prompt) else (do
        observations ← roles.execute_pending session task pending
        let longer = append_tool_observations prompt observations
        changed ←
            update_task_metadata codec task
              (("tool_loop_prompt", text longer) ∷ ("tool_loop_pending_json", text "") ∷ [])
        pure (changed, longer))

  unfoldable pub resume_tool_loop :
      String → Session → Task → List Task → List String → Exec (Option (List String))
  unfolding after_resume resume_prompt
  resume_tool_loop run_id session task rest summaries = do
    stop_if_session_runnable session.session_id
    Tasks.update_task_status task.task_id status_running
    resumed ← resume_prompt session task
    ran ← roles.execute_task task.agent_id resumed.1 session resumed.0
    after_resume run_id session rest summaries ran

  -- a task whose plan was reviewed
  unfoldable pub approve_plan :
      String → Session → Task → List Task → List String → Exec (Option (List String))
  approve_plan run_id session task rest summaries = do
    stop_if_session_runnable session.session_id
    let summary = task_metadata_string codec task "summary"
    finish_task codec patterns run_id session task rest summary
        (("reason", text "plan_approved") ∷ [])
    pure (some (and_summary summaries task summary))

  -- the summary with what the tools after a role have to say, which is stored
  unfoldable pub with_post_tools : Task → String → List String → Exec (Task × String)
  with_post_tools task summary [] = pure (task, summary)
  with_post_tools task summary (t ∷ ts) = do
    let longer = with_tools summary (t ∷ ts)
    changed ← update_task_metadata codec task (("summary", text longer) ∷ [])
    pure (changed, longer)

  -- a task that waited for the approval of a call after its role
  unfoldable pub resolve_approval :
      String → Session → Task → List Task → List String → Exec (Option (List String))
  unfolding with_post_tools
  resolve_approval run_id session task rest summaries = do
    stop_if_session_runnable session.session_id
    post ← roles.prepare_tools session task "post"
    done ← with_post_tools task (task_metadata_string codec task "summary") post
    finish_task codec patterns run_id session done.0 rest done.1
        (("reason", text "tool_approval_resolved") ∷ [])
    pure (some (and_summary summaries task done.1))

  -- a role whose model or tools have failed; where the session was paused that is no failure of the task
  unfoldable pub fail_role : String → Session → Task → Error → Exec (Option (List String))
  fail_role run_id session task e = do
    waits ← session_is_paused session.session_id
    if waits then raise e else (do
      dropped (
          update_task_metadata codec task
            (("summary", text (roles.message e)) ∷ ("failure_reason", text (roles.message e)) ∷ []))
      dropped (Tasks.update_task_status task.task_id status_failed)
      dropped (
          append_run_ledger_trace codec run_id "task.failed" task.agent_id (
            ("task_id", text task.task_id)
            ∷ ("status", text status_failed)
            ∷ ("error", text (roles.message e))
            ∷ []))
      raise e)

  unfoldable pub after_run :
      String → Session → List Task → List String → Ran → Exec (Option (List String))
  unfolding fail_role with_post_tools
  after_run run_id session rest summaries (failed t e) = fail_role run_id session t e
  after_run run_id session rest summaries (finished t preview observations) = do
    let summary = with_tools (task_summary t preview) observations
    changed ←
        update_task_metadata codec t
          (("summary", text summary) ∷ ("output_preview", text preview) ∷ [])
    create_role_artifact codec files session changed preview (is_last rest)
    post ← roles.prepare_tools session changed "post"
    done ← with_post_tools changed summary post
    leave_role codec patterns run_id session done.0 rest (summaries ++ line_of t summary ∷ [])
        done.1 []

  unfoldable pub run_role :
      String → String → Session → Task → List Task → List String → Exec (Option (List String))
  unfolding after_run
  run_role run_id prompt session task rest summaries = do
    stop_if_session_runnable session.session_id
    Tasks.update_task_status task.task_id status_running
    append_run_ledger_trace codec run_id "task.started" task.agent_id
        (("task_id", text task.task_id) ∷ ("status", text status_running) ∷ [])
    pre ← roles.prepare_tools session task "pre"
    asked ← roles.role_prompt session prompt task (summaries ++ pre)
    ran ← roles.execute_task task.agent_id asked session task
    after_run run_id session rest summaries ran

  abbrev has_text : Task → String → Bool
  has_text task key = not (is_empty (task_metadata_string codec task key))

  -- one turn of the loop
  unfoldable pub execute_step :
      String → String → Session → Task → List Task → List String → Exec (Option (List String))
  unfolding resume_tool_loop approve_plan resolve_approval run_role
  execute_step run_id prompt session task rest summaries =
      if task.status == status_completed
      then pure (some (and_summary summaries task (task_metadata_string codec task "summary")))
      else if task.status == status_cancelled || task.status == status_failed
      then raise (wrong_status task.status)
      else if task.status == status_blocked && has_text task "tool_loop_prompt"
      then resume_tool_loop run_id session task rest summaries
      else if task.status == status_plan_review
      then approve_plan run_id session task rest summaries
      else if task.status == status_blocked && has_text task "output_preview"
      then resolve_approval run_id session task rest summaries
      else run_role run_id prompt session task rest summaries

  unfoldable pub execute_tasks : String → String → Session → List Task → List String → Exec Unit
  unfolding execute_step
  execute_tasks run_id prompt session [] summaries =
      complete_session_lifecycle codec run_id status_completed
  execute_tasks run_id prompt session (task ∷ rest) summaries =
      execute_step run_id prompt session task rest summaries >>= λ next. elim next [
        | none ↦ pure tt
        | some more ↦ execute_tasks run_id prompt session rest more
      ]

  unfoldable pub execute_workspace_session : String → String → Session → List Task → Exec Unit
  unfolding execute_tasks
  execute_workspace_session run_id prompt session tasks =
      execute_tasks run_id prompt session tasks []

  -- what becomes of an error: where the session is found cancelled or paused that is all
  unfoldable pub end_worker : String → Session → List Task → Exec Unit
  end_worker run_id session tasks = do
    ended ← attempt false (do
      current ← get_by_session session.session_id
      pure (is_in (status_cancelled ∷ paused) current.session.status))
    if ended
        then pure tt
        else dropped (complete_run_ledger codec run_id status_failed status_failed (task_ids tasks))

  -- the body of startRunWorker's goroutine; its time limit is not modelled
  unfoldable pub run_worker : String → String → Session → List Task → Exec Unit
  unfolding execute_workspace_session end_worker
  run_worker run_id prompt session tasks = do
    done ← attempt false (do execute_workspace_session run_id prompt session tasks; pure true)
    if done then pure tt else end_worker run_id session tasks
