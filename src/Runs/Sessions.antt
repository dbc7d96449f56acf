-- ===== src/Runs/Sessions.antt =====
-- internal/runs/store.go: the operations on sessions, and what they read of tasks.
use mathlib.Core.Option
use nomici_orchestrator.Common.{
  ℕ, String, ◌==◌, Bool, ◌&&◌, ◌||◌, Option, List, [], ◌∷◌, map, if◌then◌else◌, take, is_empty,
  str_lt, ◌=ℕ=◌,
}
use nomici_orchestrator.Common.Table
use nomici_orchestrator.Store.{
  Db, required, wrong_status, Exec, pure, raise, now, new_id, exec, exec_counted, exec_insert,
  query, refuse_if, row, ◌>>=◌, ◌>>◌,
}
use nomici_orchestrator.Store.Rows.{Session, Task}
use nomici_orchestrator.Runs.Types.{
  CreateSessionRequest, SessionDetail, execution_state_for, is_in, status_running,
  status_plan_review, status_blocked, status_needs_clarification, status_completed,
  status_cancelled,
}

-- The unique indexes of run_sessions: the primary key, and run_id.
abbrev pub clash : Session → Session → Bool
clash a b = a.session_id == b.session_id || a.run_id == b.run_id

abbrev pub has_session : String → Session → Bool
has_session session_id s = s.session_id == session_id

unfoldable pub insert_session : Session → Db → Option Db
insert_session s db =
    Option.map (λ rows. record db { run_sessions = rows }) (Table.insert clash s db.run_sessions)

unfoldable pub update_sessions : (Session → Bool) → (Session → Session) → Db → Db
update_sessions p f db = record db { run_sessions = Table.update p f db.run_sessions }

-- what an UPDATE sets when a session moves to a status
abbrev pub with_status : String → String → Session → Session
with_status status at s = record s {
  status = status;
  execution_state = execution_state_for status;
  updated_at = at;
}

unfoldable pub new_session : CreateSessionRequest → String → String → Session
new_session request at session_id =
    let status = if is_empty request.status then status_running else request.status in
    record {
      session_id = session_id;
      run_id = request.run_id;
      project_id = request.project_id;
      graph_snapshot_id = request.graph_snapshot_id;
      title = if is_empty request.title then request.run_id else request.title;
      source_channel =
          if is_empty request.source_channel then "console" else request.source_channel;
      status = status;
      execution_state = execution_state_for status;
      started_at = at;
      updated_at = at;
      completed_at = "";
      metadata = if is_empty request.metadata then "{}" else request.metadata;
    }

unfoldable pub create_session : CreateSessionRequest → Exec Session
unfolding insert_session
create_session request = do
  refuse_if (is_empty request.run_id) (required "run_id")
  refuse_if (is_empty request.project_id) (required "project_id")
  refuse_if (is_empty request.graph_snapshot_id) (required "graph_snapshot_id")
  at ← now
  session_id ← new_id "session"
  let session = new_session request at session_id
  exec_insert (insert_session session)
  pure session

unfoldable pub complete_session : String → String → Exec Unit
complete_session run_id wanted = do
  let status = if is_empty wanted then status_completed else wanted
  at ← now
  exec (
      update_sessions (λ s. s.run_id == run_id)
        (λ s. record (with_status status at s) { completed_at = at }))

unfoldable pub update_session_status : String → String → Exec Unit
update_session_status run_id status = do
  refuse_if (is_empty run_id) (required "run_id")
  refuse_if (is_empty status) (required "status")
  at ← now
  exec (update_sessions (λ s. s.run_id == run_id) (with_status status at))

-- scanSession derives an execution state that is not stored.
unfoldable pub scan_session : Session → Session
scan_session s =
    if is_empty s.execution_state
    then record s { execution_state = execution_state_for s.status }
    else s

-- ORDER BY started_at, task_id
abbrev pub starts_before : Task → Task → Bool
starts_before a b =
    str_lt a.started_at b.started_at || (a.started_at == b.started_at && str_lt a.task_id b.task_id)

unfoldable pub list_tasks : String → Exec (List Task)
list_tasks run_id =
    query (λ db. Table.order_by starts_before (Table.select (λ t. t.run_id == run_id) db.run_tasks))

-- GetByRun and GetBySession, by the WHERE clause
unfoldable pub get_detail : (Session → Bool) → Exec SessionDetail
get_detail p = do
  found ← query (λ db. Table.find p db.run_sessions)
  stored ← row found
  let session = scan_session stored
  tasks ← list_tasks session.run_id
  pure (record { session = session; tasks = tasks })

unfoldable pub get_by_run : String → Exec SessionDetail
get_by_run run_id = get_detail (λ s. s.run_id == run_id)

unfoldable pub get_by_session : String → Exec SessionDetail
get_by_session session_id = get_detail (has_session session_id)

unfoldable pub list_tasks_by_session : String → Exec (List Task)
list_tasks_by_session session_id = do detail ← get_by_session session_id; pure detail.tasks

-- A limit that is not positive stands for 20; it is 0 here.
unfoldable pub list_sessions : ℕ → Exec (List Session)
list_sessions limit = query (λ db. map scan_session (
    take (if limit =ℕ= 0 then 20 else limit)
      (Table.order_by (λ a b. str_lt b.updated_at a.updated_at) db.run_sessions)))

-- what follows when no row was affected: the error that names the session's status
unfoldable pub refuse_change : String → Exec Unit
refuse_change session_id = do
  existing ← get_by_session session_id
  raise (wrong_status existing.session.status)

-- The part that ResumeSession and CancelSession share: the UPDATE of a session that is in one of the
-- statuses, and what follows by the number of rows.
unfoldable pub change_session : List String → (String → Session → Session) → String → Exec Unit
change_session statuses f session_id = do
  refuse_if (is_empty session_id) (required "session_id")
  at ← now
  let p = λ (s : Session). has_session session_id s && is_in statuses s.status
  affected ← exec_counted (λ db. Table.affected p db.run_sessions) (update_sessions p (f at))
  (if affected =ℕ= 0 then refuse_change session_id else pure tt)

abbrev pub resumable : List String
resumable = status_plan_review ∷ status_blocked ∷ status_needs_clarification ∷ []

unfoldable pub resume_session : String → Exec Unit
resume_session session_id = change_session resumable (with_status status_running) session_id

abbrev pub cancellable : List String
cancellable = status_running ∷ status_plan_review ∷ status_blocked ∷ status_needs_clarification ∷ []

abbrev pub cancelled : String → Session → Session
cancelled at s = record (with_status status_cancelled at s) { completed_at = at }

unfoldable pub cancel_session : String → Exec Unit
cancel_session session_id = change_session cancellable cancelled session_id
