-- ===== src/Gateway/Roles.antt =====
-- internal/gateway/run_handler.go: what executeWorkspaceSession has done for a role, and the end of a role.
-- Every service is there.
use nomici_orchestrator.Common.{
  String, ◌==◌, Bool, true, false, ◌&&◌, Option, none, some, List, [], ◌∷◌, ◌++◌, is_empty,
  trim_space, indented, if◌then◌else◌, ◌^+◌,
}
use nomici_orchestrator.Store.{Error, Exec, pure, ◌>>◌}
use nomici_orchestrator.Store.Rows.{Session, Task}
use nomici_orchestrator.SharedContext.Redaction.{Pattern, join_with}
use nomici_orchestrator.Runs.Types.{status_completed}
use nomici_orchestrator.Runs.Tasks as Tasks
use nomici_orchestrator.Gateway.Ledger.{
  text, Object, Codec, append_run_ledger_trace, task_role_id, route_needs_plan_review,
}
use nomici_orchestrator.Gateway.Lifecycle.{block_for_plan_review, save_role_context_snapshot}

-- what became of a task that a model ran, with the task as it was changed in place: the preview of the
-- result and the observations of the tools, or an error
pub data Ran : Type 0 where
  finished : Task → String → List String → Ran
  failed : Task → Error → Ran

-- What the loop has done for a role: rolePrompt, executeRoleToolPreparation,
-- executePendingModelToolCalls and executeTaskWithToolLoop, which is given an agent and a prompt. They
-- may do anything to the database. `message` is the text of an error.
pub record Roles : Type 0 where
  pub role_prompt : Session → String → Task → List String → Exec String
  pub prepare_tools : Session → Task → String → Exec (List String)
  pub execute_pending : Session → Task → String → Exec (List String)
  pub execute_task : String → String → Session → Task → Exec Ran
  pub message : Error → String

observation_lines : List String → String
observation_lines [] = ""
observation_lines (o ∷ os) = ("- " ^+ indented (trim_space o) ^+ "\n") ^+ observation_lines os

unfoldable pub append_tool_observations : String → List String → String
unfolding observation_lines
append_tool_observations prompt [] = prompt
append_tool_observations prompt (o ∷ os) =
    prompt
    ^+ "\n\nTool observations:\n"
    ^+ observation_lines (o ∷ os)
    ^+ "\nContinue this role. Return another tool_calls JSON object only if more tools are required; otherwise return the final role result as normal text."

-- the next task of the session, if there is one
abbrev pub next_of : List Task → Option Task
next_of [] = none
next_of (t ∷ ts) = some t

abbrev pub is_last : List Task → Bool
is_last [] = true
is_last (t ∷ ts) = false

-- a summary, and what the tools have to say
abbrev pub with_tools : String → List String → String
with_tools summary [] = summary
with_tools summary (t ∷ ts) = join_with "\n" (summary ∷ t ∷ ts)

abbrev pub line_of : Task → String → String
line_of task summary = task.agent_id ^+ ": " ^+ summary

-- the summaries, with one that is not empty
abbrev pub and_summary : List String → Task → String → List String
and_summary summaries task summary =
    if is_empty summary then summaries else summaries ++ line_of task summary ∷ []

module _ (codec : Codec) (patterns : List Pattern) where
  -- the end of a role: its task is completed and its summary handed to the next task
  unfoldable pub finish_task : String → Session → Task → List Task → String → Object → Exec Unit
  finish_task run_id session task rest summary reason = do
    Tasks.update_task_status task.task_id status_completed
    append_run_ledger_trace codec run_id "task.completed" task.agent_id (
        ("task_id", text task.task_id)
        ∷ ("status", text status_completed)
        ∷ ("summary", text summary)
        ∷ reason)
    save_role_context_snapshot codec patterns session task (next_of rest) summary

  abbrev pub needs_review : Session → Task → Bool
  needs_review session task =
      task_role_id codec task == "planner" && route_needs_plan_review codec session

  -- A role that is through is reviewed, or its task is finished. `none` is the return after a review was
  -- asked for, and `some` the continue, with the summaries so far.
  unfoldable pub leave_role :
      String
      → Session
      → Task
      → List Task
      → List String
      → String
      → Object
      → Exec (Option (List String))
  unfolding finish_task
  leave_role run_id session task rest summaries summary reason =
      if needs_review session task
      then (do block_for_plan_review codec session task run_id; pure none)
      else (do finish_task run_id session task rest summary reason; pure (some summaries))
