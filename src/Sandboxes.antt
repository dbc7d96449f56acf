-- ===== src/Sandboxes.antt =====
-- internal/sandbox: the sandbox of a run, as it is recorded. `Machine` is what the machine gives: the
-- provider that internal/sandbox/detect.go finds for a mode, the making of a directory, and the JSON of
-- the default metadata.
pub mod Lasting
use mathlib.Core.Option
use nomici_orchestrator.Common.{
  String, ◌==◌, Bool, true, false, ◌&&◌, ◌||◌, Option, if◌then◌else◌, is_empty, ◌^+◌,
}
use nomici_orchestrator.Common.Table
use nomici_orchestrator.Paths
use nomici_orchestrator.Store.{
  Db, required, Exec, pure, now, exec, exec_insert, query, refuse_if, row, ◌>>=◌, ◌>>◌,
}
use nomici_orchestrator.Store.Rows.{Sandbox}

abbrev pub mode_local : String
mode_local = "local"

abbrev pub mode_container : String
mode_container = "container"

abbrev pub mode_none : String
mode_none = "none"

abbrev pub cleanup_active : String
cleanup_active = "active"

abbrev pub cleanup_released : String
cleanup_released = "released"

abbrev pub cleanup_disabled : String
cleanup_disabled = "disabled"

pub record Intent : Type 0 where
  pub mode : String
  pub bash_enabled : Bool
  pub file_write_enabled : Bool

pub record Availability : Type 0 where
  pub provider : String
  pub mode : String
  pub status : String
  pub runtime_binary : String
  pub message : String

pub record CreateRecordRequest : Type 0 where
  pub run_id : String
  pub task_id : String
  pub project_id : String
  pub base_dir : String
  pub workspace_root : String
  pub artifact_root : String
  pub intent : Intent
  pub metadata : String

pub record Machine : Type 0 where
  pub detect : String → Availability
  pub make_dir : String → Exec Unit
  pub metadata : CreateRecordRequest → String
  -- the first 16 hexadecimal digits of SHA-256
  pub digest : String → String

unfoldable pub normalize_mode : String → String
normalize_mode mode =
    if mode == mode_local || mode == mode_container || mode == mode_none then mode else mode_local

-- a directory of the run under the base directory
abbrev pub run_dir : String → String → String → String
run_dir base_dir run_id name =
    Paths.join
      (Paths.join
        (Paths.join (Paths.join (if is_empty base_dir then "." else base_dir) ".nomici") "runs")
        run_id)
      name

-- The primary key of sandbox_records, and its unique run.
abbrev pub clash : Sandbox → Sandbox → Bool
clash a b = a.sandbox_id == b.sandbox_id || a.run_id == b.run_id

unfoldable pub insert_sandbox : Sandbox → Db → Option Db
insert_sandbox s db =
    Option.map (λ rows. record db { sandbox_records = rows })
      (Table.insert clash s db.sandbox_records)

abbrev pub of_run : String → Sandbox → Bool
of_run run_id s = s.run_id == run_id

unfoldable pub get_by_run : String → Exec Sandbox
get_by_run run_id = do
  found ← query (λ db. Table.find (of_run run_id) db.sandbox_records)
  row found

unfoldable pub release_sandbox : String → String → Db → Db
release_sandbox at run_id db = record db {
  sandbox_records =
      Table.update (λ s. of_run run_id s && s.cleanup_status == cleanup_active)
        (λ s. record s { cleanup_status = cleanup_released; updated_at = at; released_at = at })
        db.sandbox_records;
}

unfoldable pub release_by_run : String → Exec Unit
unfolding release_sandbox
release_by_run run_id = do at ← now; exec (release_sandbox at run_id)

-- the directories of a sandbox
unfoldable pub make_dirs : Machine → String → String → Exec Unit
make_dirs machine workspace_root artifact_root = do
  machine.make_dir workspace_root
  machine.make_dir artifact_root
  let run_root = Paths.dir workspace_root
  machine.make_dir (Paths.join run_root "uploads")
  machine.make_dir (Paths.join run_root "outputs")

unfoldable pub create_for_run : Machine → CreateRecordRequest → Exec Sandbox
unfolding insert_sandbox make_dirs
create_for_run machine request = do
  refuse_if (is_empty request.run_id) (required "run_id")
  let mode = normalize_mode request.intent.mode
  let found = machine.detect mode
  let workspace_root =
      if mode == mode_none || not_empty request.workspace_root
      then request.workspace_root
      else run_dir request.base_dir request.run_id "workspace"
  let artifact_root =
      if mode == mode_none || not_empty request.artifact_root
      then request.artifact_root
      else run_dir request.base_dir request.run_id "artifacts"
  (if mode == mode_none then pure tt else make_dirs machine workspace_root artifact_root)
  at ← now
  let created : Sandbox = record {
    sandbox_id = "sandbox_" ^+ machine.digest request.run_id;
    run_id = request.run_id;
    task_id = request.task_id;
    provider = found.provider;
    mode = found.mode;
    status = found.status;
    workspace_root = workspace_root;
    artifact_root = artifact_root;
    runtime_binary = found.runtime_binary;
    cleanup_status = if mode == mode_none then cleanup_disabled else cleanup_active;
    message = found.message;
    created_at = at;
    updated_at = at;
    released_at = "";
    metadata = if is_empty request.metadata then machine.metadata request else request.metadata;
  }
  exec_insert (insert_sandbox created)
  pure created
  where
    not_empty : String → Bool
    not_empty s = if is_empty s then false else true
