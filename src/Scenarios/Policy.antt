-- ===== src/Scenarios/Policy.antt =====
-- internal/policy/service.go on concrete approvals.
use nomici_orchestrator.Common.{is_empty, ◌≤◌, ◌≡◌, refl, true, [], ◌∷◌}
use nomici_orchestrator.Common.Table
use nomici_orchestrator.Common.Table.{Extends}
use nomici_orchestrator.Store.{◌>>=◌, refuse_if, World, ok, final}
use nomici_orchestrator.Store.Rows.{Approval}
use nomici_orchestrator.Policy.Types.{
  ActionRequest, Decision, action_cli_invoke, decision_allow, status_granted, scope_once,
}
use nomici_orchestrator.Policy.Classify.{fingerprint, classify, is_critical_workspace}
use nomici_orchestrator.Paths
use nomici_orchestrator.Policy.Service.{check, completed, find_usable_grant}
use nomici_orchestrator.Policy.Service.Evolution.{IsUnique, Evolves}
use nomici_orchestrator.Policy.Service.Lifecycle.{
  checks, grants_one, denies, serve_all, approvals_progress,
}
use nomici_orchestrator.Policy.Service.Gate.{check-Passes, Passes}
use nomici_orchestrator.Policy.Service.Once.{single_use, times_allowed}
use nomici_orchestrator.Scenarios.Base.{start, env, host}

-- a request to write files in a workspace
abbrev request : ActionRequest
request = record {
  run_id = "run_1";
  action_id = "act_1";
  action_type = action_cli_invoke;
  project_id = "proj";
  agent_id = "agent_1";
  runtime_id = "rt";
  workspace = "/srv/w";
  files_write = true;
  summary = "write";
  subject = [];
}

-- an approval that was granted for that request
abbrev approval : Approval
approval = record {
  approval_id = "approval_1";
  run_id = "run_0";
  action_id = "act_0";
  action_type = action_cli_invoke;
  action_fingerprint = "sha256:proj\0runtime.cli_agent.invoke\0/srv/w";
  status = status_granted;
  risk = "medium";
  scope = scope_once;
  summary = "write";
  subject = [];
  requested_by_agent = "agent_1";
  runtime_id = "rt";
  reason = "";
  requested_at = "2026-01-01T00:00:00Z";
  resolved_at = "2026-01-01T00:00:01Z";
  consumed_at = "";
  bound_run_id = "";
}

abbrev ready : World
ready = record start { db = record start.db { approvals = approval ∷ [] } }

-- what the check of the request decides
abbrev allowed : Decision
allowed = record {
  decision = decision_allow;
  risk = "medium";
  reason = "approved by approval_1";
  fingerprint = "sha256:proj\0runtime.cli_agent.invoke\0/srv/w";
  approval_id = "approval_1";
  scope = scope_once;
  requested_at = "";
}

check_run : check host request ready ≡ ok allowed (final (check host request ready))
unfolding check ◌>>=◌ refuse_if is_empty classify is_critical_workspace Paths.abs find_usable_grant
    Table.order_by Table.select fingerprint
check_run = refl

approvals_progress_example :
    IsUnique
      (serve_all
        (checks host request ∷ grants_one "approval_1" "run" ∷ denies "approval_1" ∷ [])
        ready).db
    × Extends Evolves ready.db.approvals
        (serve_all
          (checks host request ∷ grants_one "approval_1" "run" ∷ denies "approval_1" ∷ [])
          ready).db.approvals
approvals_progress_example =
    approvals_progress
      (checks host request ∷ grants_one "approval_1" "run" ∷ denies "approval_1" ∷ []) ready
      (refl, tt)

check-Passes_example :
    Passes host (completed request) allowed ready.env ready.db (final (check host request ready)).db
check-Passes_example = check-Passes host request ready (refl, tt) check_run refl

single_use_example :
    times_allowed "approval_1" ((env, checks host request) ∷ (env, checks host request) ∷ []) ready
    ≤ 1
unfolding is_empty Table.find
single_use_example =
    single_use "approval_1" ((env, checks host request) ∷ (env, checks host request) ∷ []) ready
      (refl, tt) refl ((λ n. refl), ((λ n. refl), tt)) (approval, refl, refl, refl)
