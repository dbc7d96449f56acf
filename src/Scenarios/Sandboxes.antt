-- ===== src/Scenarios/Sandboxes.antt =====
-- internal/sandbox/store.go on a run with a local sandbox.
use nomici_orchestrator.Paths
use nomici_orchestrator.Common.{String, is_empty, ◌≡◌, refl, false, true, some, List, [], ◌∷◌}
use nomici_orchestrator.Common.Table
use nomici_orchestrator.Store.{World, final, pure, ◌>>=◌, refuse_if}
use nomici_orchestrator.Store.Rows.{Sandbox}
use nomici_orchestrator.Sandboxes.{
  Machine, CreateRecordRequest, mode_local, normalize_mode, create_for_run, of_run,
}
use nomici_orchestrator.Sandboxes.Lasting.{
  SandboxCall, creates, releases, serve_all, Lasts, serve_all-Lasts,
}
use nomici_orchestrator.Scenarios.Base.{start}

abbrev machine : Machine
machine = record {
  detect = λ mode. record {
    provider = "local";
    mode = mode;
    status = "available";
    runtime_binary = "";
    message = "";
  };
  make_dir = λ path. pure tt;
  metadata = λ request. "{}";
  digest = λ s. s;
}

abbrev request : CreateRecordRequest
request = record {
  run_id = "run_1";
  task_id = "task_1";
  project_id = "p";
  base_dir = "/home/user";
  workspace_root = "";
  artifact_root = "";
  intent = record { mode = mode_local; bash_enabled = false; file_write_enabled = true };
  metadata = "";
}

abbrev pub ready : World
ready = final (create_for_run machine request start)

abbrev pub sandbox : Sandbox
sandbox = record {
  sandbox_id = "sandbox_run_1";
  run_id = "run_1";
  task_id = "task_1";
  provider = "local";
  mode = "local";
  status = "available";
  workspace_root = "/home/user/.nomici/runs/run_1/workspace";
  artifact_root = "/home/user/.nomici/runs/run_1/artifacts";
  runtime_binary = "";
  cleanup_status = "active";
  message = "";
  created_at = "2026-01-02T03:04:05Z";
  updated_at = "2026-01-02T03:04:05Z";
  released_at = "";
  metadata = "{}";
}

found : Table.find (of_run "run_1") ready.db.sandbox_records ≡ some sandbox
unfolding create_for_run Table.find ◌>>=◌ refuse_if is_empty normalize_mode Table.insert Paths.join
found = refl

abbrev calls : List SandboxCall
calls = releases "run_1" ∷ creates request ∷ releases "run_1" ∷ []

quiet : (path : String) (w : World) → (final (machine.make_dir path w)).db ≡ w.db
unfolding pure
quiet path w = refl

serve_all-Lasts_example :
    (t : Sandbox) × (Table.find (of_run "run_1") (serve_all machine calls ready).db.sandbox_records
      ≡ some t)
    × Lasts sandbox t
serve_all-Lasts_example = serve_all-Lasts machine quiet calls ready "run_1" found
