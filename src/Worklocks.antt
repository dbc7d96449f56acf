-- ===== src/Worklocks.antt =====
-- internal/worklocks/store.go: exclusive locks on the resources of a run's workspace.
pub mod Exclusive
pub mod Handover
use nomici_orchestrator.Common.{
  ℕ, String, ◌==◌, Bool, ◌&&◌, ◌||◌, Option, List, if◌then◌else◌, take, is_empty, trim_space,
  str_lt, ◌=ℕ=◌,
}
use mathlib.Core.Option
use nomici_orchestrator.Common.Table
use nomici_orchestrator.Store.{
  Db, Error, unique, driver, required, locked, Exec, pure, now, new_id, exec, exec_insert, query,
  map_error, refuse_if, ◌>>=◌, ◌>>◌,
}
use nomici_orchestrator.Store.Rows.{Lock}

abbrev pub status_held : String
status_held = "held"

abbrev pub status_released : String
status_released = "released"

pub record AcquireRequest : Type 0 where
  pub run_id : String
  pub task_id : String
  pub tool_call_id : String
  pub resource : String
  pub owner : String
  pub metadata : String

-- The lock is held on that resource of that run.
abbrev pub holds : String → String → Lock → Bool
holds run_id resource l = l.status == status_held && l.run_id == run_id && l.resource == resource

-- The unique indexes of workspace_locks: the primary key, and idx_workspace_locks_held, which is
-- over the held locks only.
abbrev pub clash : Lock → Lock → Bool
clash a b =
    a.lock_id == b.lock_id
    || (a.status == status_held
        && b.status == status_held
        && a.run_id == b.run_id
        && a.resource == b.resource)

insert_lock : Lock → Db → Option Db
insert_lock lock db =
    Option.map (λ rows. record db { workspace_locks = rows })
      (Table.insert clash lock db.workspace_locks)

-- SQLite's message about a unique index is the one that holds "unique".
lock_error : String → Error → Error
lock_error resource unique = locked resource
lock_error resource e = e

unfoldable pub new_lock : AcquireRequest → String → String → Lock
new_lock request acquired_at lock_id = record {
  lock_id = lock_id;
  run_id = request.run_id;
  task_id = request.task_id;
  tool_call_id = request.tool_call_id;
  resource = trim_space request.resource;
  mode = "exclusive";
  status = status_held;
  owner = if is_empty request.owner then "toolbroker" else request.owner;
  metadata = if is_empty request.metadata then "{}" else request.metadata;
  acquired_at = acquired_at;
  released_at = "";
}

unfoldable pub acquire : AcquireRequest → Exec Lock
unfolding insert_lock lock_error new_lock
acquire request = do
  refuse_if (is_empty (trim_space request.run_id)) (required "run_id")
  refuse_if (is_empty (trim_space request.resource)) (required "resource")
  acquired_at ← now
  lock_id ← new_id "lock"
  let lock = new_lock request acquired_at lock_id
  map_error (lock_error lock.resource) (exec_insert (insert_lock lock))
  pure lock

unfoldable pub release_lock : String → String → Db → Db
release_lock released_at lock_id db = record db {
  workspace_locks =
      Table.update (λ l. l.lock_id == lock_id && l.status == status_held)
        (λ l. record l { status = status_released; released_at = released_at }) db.workspace_locks;
}

-- An empty identifier is no lock, and nothing is done.
unfoldable pub release : String → Exec Unit
unfolding release_lock
release lock_id =
    if is_empty (trim_space lock_id)
    then pure tt
    else do released_at ← now; exec (release_lock released_at lock_id)

-- A limit that is not positive stands for 50; it is 0 here.
unfoldable pub list_by_run : String → String → ℕ → Exec (List Lock)
list_by_run run_id status limit = do
  refuse_if (is_empty (trim_space run_id)) (required "run_id")
  query (λ db. take (if limit =ℕ= 0 then 50 else limit) (
      Table.order_by (λ a b. str_lt b.acquired_at a.acquired_at)
        (Table.select
          (λ l. l.run_id == run_id && (is_empty (trim_space status) || l.status == status))
          db.workspace_locks)))
