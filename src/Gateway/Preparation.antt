-- ===== src/Gateway/Preparation.antt =====
-- internal/gateway/run_handler.go: the tools before and after a role, the calls that wait, and the handler's
-- own code behind the interface Roles, for a session, a task and services that are not nil.
use nomici_orchestrator.Common.{
  String, ◌==◌, ◌&&◌, none, some, List, [], ◌∷◌, ◌++◌, starts_with, if◌then◌else◌, is_empty, ◌^+◌,
}
use nomici_orchestrator.Store.{external, Exec, pure, raise, ◌>>=◌, ◌>>◌}
use nomici_orchestrator.Store.Rows.{Session, Task}
use nomici_orchestrator.SharedContext.Redaction.{Pattern}
use nomici_orchestrator.Runs.Tasks as Tasks
use nomici_orchestrator.Toolbroker.Types.{tool_list_files, tool_bash}
use nomici_orchestrator.Gateway.Ledger.{
  text, count, Codec, with_metadata, task_metadata_string_slice,
}
use nomici_orchestrator.Gateway.Lifecycle.{dropped, block_for_tool_approval}
use nomici_orchestrator.Gateway.Roles.{Roles}
use nomici_orchestrator.Gateway.Calls.{
  ModelCall, Answer, Models, tool_observation, normalize_model_tool_id,
}
use nomici_orchestrator.Gateway.Prompt.{role_prompt}
use nomici_orchestrator.Gateway.ToolCalls.{asked, is_waiting, request_of}
use nomici_orchestrator.Gateway.ToolLoop.{execute_task_with_tool_loop}

-- the calls whose record has an output, and what is said of it
abbrev output_of : String → Answer → List String
output_of heading a = elim a.call_record [
  | none ↦ []
  | some r ↦ if is_empty r.output_preview then [] else (heading ^+ r.output_preview) ∷ []
]

module _ (codec : Codec) (models : Models) where
  -- the files of the workspace, for a role that reads the project
  read_project : Session → Task → Exec (List String)
  unfolding asked
  read_project session task =
      asked (
        models.execute (
          request_of codec [] models session task tool_list_files
            (("path", text ".") ∷ ("limit", count 80) ∷ [])))
      >>= λ a. pure (elim a.failure [
        | some e ↦ ("Tool list_files failed: " ^+ models.message e) ∷ []
        | none ↦ output_of "Workspace files:\n" a
      ])

  -- the checks, after a role that asks for them
  run_checks : Session → Task → Exec (List String)
  unfolding asked
  run_checks session task =
      asked (
        models.execute (
          request_of codec [] models session task tool_bash (
            ("command", text "make test")
            ∷ ("cwd", text ".")
            ∷ ("timeout_seconds", count 300)
            ∷ [])))
      >>= λ a. elim (is_waiting a.call_record) [
        | some r ↦ block_for_tool_approval codec session task r >> pure []
        | none ↦ pure (elim a.failure [
          | some e ↦ ("Verification tool failed:\n" ^+ models.message e) ∷ output_of "" a
          | none ↦ output_of "Verification tool output:\n" a
        ])
      ]

  prepare_tool : Session → Task → String → String → Exec (List String)
  unfolding read_project run_checks
  prepare_tool session task phase tool =
      if phase == "pre" && tool == "read_project"
      then read_project session task
      else if phase == "post" && tool == "run_checks"
      then run_checks session task
      else pure []

  prepare_each : Session → Task → String → List String → Exec (List String)
  unfolding prepare_tool
  prepare_each session task phase [] = pure []
  prepare_each session task phase (tool ∷ tools) = do
    said ← prepare_tool session task phase tool
    rest ← prepare_each session task phase tools
    pure (said ++ rest)

  -- executeRoleToolPreparation
  unfoldable pub execute_role_tool_preparation : Session → Task → String → Exec (List String)
  unfolding prepare_each
  execute_role_tool_preparation session task phase =
      prepare_each session task phase (task_metadata_string_slice codec task "required_tools")

  pending_answer : Session → Task → ModelCall → String → Exec Answer
  unfolding asked
  pending_answer session task call tool_id =
      let request = request_of codec [] models session task tool_id call.input in
      if starts_with "toolcall_" call.id
      then asked (models.execute_approved call.id request)
      else asked (models.execute request)

  -- an error without a record ends the calls
  go_on : Answer → Exec Unit
  go_on a = elim a.failure [
    | none ↦ pure tt
    | some e ↦ elim a.call_record [ none ↦ raise e | some r ↦ pure tt ]
  ]

  pending_call : Session → Task → ModelCall → Exec (List String)
  unfolding pending_answer go_on
  pending_call session task call =
      let tool_id = normalize_model_tool_id call.tool_id in
      if is_empty tool_id
      then pure (
          ("Tool " ^+ models.quoted call.tool_id ^+ " was skipped because it is not available.")
          ∷ [])
      else (pending_answer session task call tool_id >>= λ a. elim (is_waiting a.call_record) [
        | some r ↦
            let pending = models.encode_pending (record call { id = r.tool_call_id }) in
            let changed =
              with_metadata codec task (("tool_loop_pending_json", text pending) ∷ []) in
            dropped (Tasks.update_task_metadata task.task_id changed.metadata)
            >> block_for_tool_approval codec session changed r
            >> pure []
        | none ↦ go_on a >> pure (tool_observation models tool_id a ∷ [])
      ])

  pending_calls : Session → Task → List ModelCall → Exec (List String)
  unfolding pending_call
  pending_calls session task [] = pure []
  pending_calls session task (call ∷ calls) = do
    said ← pending_call session task call
    rest ← pending_calls session task calls
    pure (said ++ rest)

  -- executePendingModelToolCalls
  unfoldable pub execute_pending_model_tool_calls : Session → Task → String → Exec (List String)
  unfolding pending_calls
  execute_pending_model_tool_calls session task raw = elim (models.decode_pending raw) [
    | none ↦ raise (external "resume tool loop: decode pending tool calls")
    | some calls ↦ pending_calls session task calls
  ]

-- the handler's own code behind the interface of the loop over the roles
unfoldable pub roles_of : Codec → List Pattern → (List String → List String) → Models → Roles
roles_of codec patterns skill_briefings models = record {
  role_prompt = role_prompt codec skill_briefings;
  prepare_tools = execute_role_tool_preparation codec models;
  execute_pending = execute_pending_model_tool_calls codec models;
  execute_task = λ agent_id prompt session task.
      execute_task_with_tool_loop codec patterns models session task agent_id prompt;
  message = models.message;
}
