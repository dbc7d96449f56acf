-- ===== src/Scenarios/Workspace.antt =====
-- internal/toolbroker/broker.go workspacePath on the workspace of a run.
use nomici_orchestrator.Common.{
  String, ◌≡◌, refl, true, some, arith, is_empty, trim_space, has_prefix, subst,
}
use nomici_orchestrator.Common.Table
use nomici_orchestrator.Paths
use nomici_orchestrator.Paths.{abs, is_abs, starts_with}
use nomici_orchestrator.Store.{World, ok, err, denied, next, ◌>>=◌, refuse_if, row}
use nomici_orchestrator.Store.Rows.{Sandbox}
use nomici_orchestrator.Sandboxes.{create_for_run, get_by_run, normalize_mode}
use nomici_orchestrator.Toolbroker.Broker
use nomici_orchestrator.Toolbroker.Workspace.{absolute, workspace_path}
use nomici_orchestrator.Toolbroker.Contained.{Within, workspace_path-Within}
use nomici_orchestrator.Scenarios.Base.{host}
use nomici_orchestrator.Scenarios.Sandboxes.{ready}

abbrev file : String
file = "/home/user/.nomici/runs/run_1/workspace/a.txt"

inside : workspace_path host "run_1" "docs/../a.txt" ready ≡ ok file (next ready)
unfolding workspace_path ◌>>=◌ refuse_if is_empty trim_space Broker.sandbox get_by_run
    create_for_run normalize_mode Table.insert row Table.find Paths.join absolute abs
inside = refl

outside :
    workspace_path host "run_1" "a/../../b" ready
    ≡ err (denied "path escapes the workspace") (next ready)
unfolding workspace_path ◌>>=◌ refuse_if is_empty trim_space Broker.sandbox get_by_run
    create_for_run normalize_mode Table.insert row Table.find Paths.join absolute abs
outside = refl

rooted_directory : (dir : String) → host.working_directory ≡ some dir → is_abs dir ≡ true
unfolding is_abs starts_with has_prefix
rooted_directory dir h = subst (λ d. is_abs d ≡ true) (same h) refl
  where
    same : {x y : String} → some x ≡ some y → x ≡ y
    same e = ground arith

workspace_path-Within_example :
    (s : Sandbox) × (w₁ : World) × (root : String) × (Broker.sandbox "run_1" ready ≡ ok s w₁)
    × (abs host s.workspace_root ≡ some root)
    × Within root file
workspace_path-Within_example =
    workspace_path-Within host "run_1" "docs/../a.txt" ready rooted_directory inside
