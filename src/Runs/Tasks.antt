-- ===== src/Runs/Tasks.antt =====
-- internal/runs/store.go: the operations on tasks.
use mathlib.Core.Option
use nomici_orchestrator.Common.{
  String, ◌==◌, Bool, ◌&&◌, Option, List, [], ◌∷◌, ◌++◌, if◌then◌else◌, any, is_empty,
}
use nomici_orchestrator.Common.Table
use nomici_orchestrator.Store.{
  Db, required, Exec, pure, now, new_id, exec, exec_insert, query, refuse_if, row, ◌>>=◌, ◌>>◌,
}
use nomici_orchestrator.Store.Rows.{Task}
use nomici_orchestrator.Runs.Types.{
  CreateTaskRequest, is_in, status_queued, status_running, status_waiting_for_approval,
  status_plan_review, status_blocked, status_completed, status_failed, status_cancelled,
}

-- The primary key of run_tasks.
abbrev pub clash : Task → Task → Bool
clash a b = a.task_id == b.task_id

abbrev pub has_task : String → Task → Bool
has_task task_id t = t.task_id == task_id

unfoldable pub insert_task : Task → Db → Option Db
insert_task t db =
    Option.map (λ rows. record db { run_tasks = rows }) (Table.insert clash t db.run_tasks)

unfoldable pub update_tasks : (Task → Bool) → (Task → Task) → Db → Db
update_tasks p f db = record db { run_tasks = Table.update p f db.run_tasks }

unfoldable pub new_task : CreateTaskRequest → String → String → String → Task
new_task request started_at updated_at task_id = record {
  task_id = task_id;
  run_id = request.run_id;
  parent_task_id = request.parent_task_id;
  agent_id = request.agent_id;
  runtime_id = request.runtime_id;
  status = if is_empty request.status then status_queued else request.status;
  context_snapshot_id = "";
  blocked_reason = "";
  selected_context_snapshot_id = "";
  artifact_refs = [];
  approval_refs = [];
  started_at = started_at;
  updated_at = updated_at;
  completed_at = "";
  metadata = if is_empty request.metadata then "{}" else request.metadata;
}

unfoldable pub create_task : CreateTaskRequest → Exec Task
unfolding insert_task
create_task request = do
  refuse_if (is_empty request.run_id) (required "run_id")
  refuse_if (is_empty request.agent_id) (required "agent_id")
  started_at ← now
  updated_at ← now
  task_id ← (if is_empty request.task_id then new_id "task" else pure request.task_id)
  let task = new_task request started_at updated_at task_id
  exec_insert (insert_task task)
  pure task

abbrev pub finished : String → String → Task → Task
finished status at t = record t { status = status; updated_at = at; completed_at = at }

unfoldable pub complete_tasks : String → String → Exec Unit
complete_tasks run_id wanted = do
  let status = if is_empty wanted then status_completed else wanted
  at ← now
  exec (
      update_tasks (λ t. t.run_id == run_id && is_in (status_queued ∷ status_running ∷ []) t.status)
        (finished status at))

abbrev pub terminal : List String
terminal = status_completed ∷ status_failed ∷ status_cancelled ∷ []

unfoldable pub update_task_status : String → String → Exec Unit
update_task_status task_id status = do
  refuse_if (is_empty task_id) (required "task_id")
  refuse_if (is_empty status) (required "status")
  at ← now
  let completed_at = if is_in terminal status then at else ""
  exec (
      update_tasks (has_task task_id)
        (λ t. record t { status = status; updated_at = at; completed_at = completed_at }))

unfoldable pub update_task_metadata : String → String → Exec Unit
update_task_metadata task_id metadata = do
  refuse_if (is_empty task_id) (required "task_id")
  at ← now
  exec (
      update_tasks (has_task task_id) (λ t. record t {
        metadata = if is_empty metadata then "{}" else metadata;
        updated_at = at;
      }))

unfoldable pub set_task_blocked : String → String → String → Exec Unit
set_task_blocked task_id wanted reason = do
  refuse_if (is_empty task_id) (required "task_id")
  let status = if is_empty wanted then status_blocked else wanted
  at ← now
  exec (
      update_tasks (has_task task_id)
        (λ t. record t { status = status; blocked_reason = reason; updated_at = at }))

unfoldable pub set_task_selected_context_snapshot : String → String → Exec Unit
set_task_selected_context_snapshot task_id snapshot_id = do
  refuse_if (is_empty task_id) (required "task_id")
  at ← now
  exec (
      update_tasks (has_task task_id)
        (λ t. record t { selected_context_snapshot_id = snapshot_id; updated_at = at }))

unfoldable pub set_task_context_snapshot : String → String → Exec Unit
set_task_context_snapshot task_id snapshot_id = do
  refuse_if (is_empty task_id) (required "task_id")
  at ← now
  exec (
      update_tasks (has_task task_id)
        (λ t. record t { context_snapshot_id = snapshot_id; updated_at = at }))

-- what follows once the references of the task are read
unfoldable pub add_ref : String → String → List String → Exec Unit
add_ref task_id artifact_id refs = if any (λ r. r == artifact_id) refs then pure tt else (do
  at ← now
  exec (
      update_tasks (has_task task_id)
        (λ t. record t { artifact_refs = refs ++ artifact_id ∷ []; updated_at = at })))

unfoldable pub add_task_artifact_ref : String → String → Exec Unit
add_task_artifact_ref task_id artifact_id = do
  refuse_if (is_empty task_id) (required "task_id")
  refuse_if (is_empty artifact_id) (required "artifact_id")
  found ← query (λ db. Table.find (has_task task_id) db.run_tasks)
  task ← row found
  add_ref task_id artifact_id task.artifact_refs

abbrev pub active : List String
active =
    status_queued ∷ status_running ∷ status_waiting_for_approval ∷ status_blocked
    ∷ status_plan_review ∷ []

unfoldable pub cancel_tasks : String → Exec Unit
cancel_tasks run_id = do
  refuse_if (is_empty run_id) (required "run_id")
  at ← now
  exec (
      update_tasks (λ t. t.run_id == run_id && is_in active t.status)
        (finished status_cancelled at))
