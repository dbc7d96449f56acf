-- ===== src/Scenarios/Runs.antt =====
-- internal/runs/store.go on concrete sessions and tasks.
use nomici_orchestrator.Common.{is_empty, ◌≡◌, refl, some, List, [], ◌∷◌}
use nomici_orchestrator.Common.Table
use nomici_orchestrator.Store.{World, final, ok, ◌>>=◌, refuse_if, row}
use nomici_orchestrator.Store.Rows.{Session, Task}
use nomici_orchestrator.Runs.Types.{CreateSessionRequest, status_running}
use nomici_orchestrator.Runs.Tasks.{add_ref, add_task_artifact_ref, has_task}
use nomici_orchestrator.Runs.Consistent.{
  SessionCall, creates, updates, resumes, cancels, IsConsistent, serve_all, sessions-IsConsistent,
}
use nomici_orchestrator.Runs.Refs.{Adds, add_task_artifact_ref-Adds}
use nomici_orchestrator.Scenarios.Base.{start}

abbrev request : CreateSessionRequest
request = record {
  run_id = "run_1";
  project_id = "proj";
  graph_snapshot_id = "graph_1";
  title = "";
  source_channel = "";
  status = "";
  metadata = "";
}

abbrev blocked_session : Session
blocked_session = record {
  session_id = "session_1";
  run_id = "run_1";
  project_id = "proj";
  graph_snapshot_id = "graph_1";
  title = "run_1";
  source_channel = "console";
  status = "blocked";
  execution_state = "blocked";
  started_at = "2026-01-01T00:00:00Z";
  updated_at = "2026-01-01T00:00:00Z";
  completed_at = "";
  metadata = "{}";
}

abbrev task : Task
task = record {
  task_id = "task_1";
  run_id = "run_1";
  parent_task_id = "";
  agent_id = "agent_1";
  runtime_id = "rt";
  status = status_running;
  context_snapshot_id = "";
  blocked_reason = "";
  selected_context_snapshot_id = "";
  artifact_refs = "art_1" ∷ [];
  approval_refs = [];
  started_at = "2026-01-01T00:00:00Z";
  updated_at = "2026-01-01T00:00:00Z";
  completed_at = "";
  metadata = "{}";
}

abbrev busy : World
busy = record start {
  db = record start.db { run_sessions = blocked_session ∷ []; run_tasks = task ∷ [] };
}

abbrev calls : List SessionCall
calls =
    creates request
    ∷ updates "run_1" "blocked"
    ∷ resumes "session_0a1b"
    ∷ cancels "session_0a1b"
    ∷ []

sessions-IsConsistent_example : IsConsistent (serve_all calls start).db
sessions-IsConsistent_example = sessions-IsConsistent calls start (tt, tt)

add_run :
    add_task_artifact_ref "task_1" "art_2" busy
    ≡ ok tt (final (add_task_artifact_ref "task_1" "art_2" busy))
unfolding add_task_artifact_ref ◌>>=◌ refuse_if is_empty row Table.find add_ref
add_run = refl

add_task_artifact_ref-Adds_example :
    (t : Task) × (t' : Task) × (Table.find (has_task "task_1") busy.db.run_tasks ≡ some t)
    × (Table.find
          (has_task "task_1")
          (final (add_task_artifact_ref "task_1" "art_2" busy)).db.run_tasks
        ≡ some t')
    × Adds "art_2" t.artifact_refs t'.artifact_refs
add_task_artifact_ref-Adds_example = add_task_artifact_ref-Adds "task_1" "art_2" busy add_run
