-- ===== src/Scenarios/AgentSpec.antt =====
-- internal/agentspec and internal/graph on a project of two external agents.
use nomici_orchestrator.Common.{
  ◌≤◌, String, ◌≡◌, refl, ◌↔◌, some, [], ◌∷◌, arith, codes, length, All, pos, is_empty, trim_space,
}
use nomici_orchestrator.AgentSpec.Types.{Agent, Spec, LoadedSpec}
use nomici_orchestrator.AgentSpec.Decimal.{itoa, fill, index_text}
use nomici_orchestrator.AgentSpec.Printed.{number_of, IsDigit, itoa-IsDecimal}
use nomici_orchestrator.AgentSpec.Checks
use nomici_orchestrator.AgentSpec.Checks.{validate, kind_external, runtime_cli_agent}
use nomici_orchestrator.AgentSpec.WellFormed.{IsWellFormed, validate-eq-nil}
use nomici_orchestrator.Graph.Types.{Snapshot}
use nomici_orchestrator.Graph.Compile.{
  compile, compiled, compile_checked, compile_valid, compile_ir,
}
use nomici_orchestrator.Graph.Closed.{IsClosed, compile-IsClosed}
use nomici_orchestrator.Store.{ok, next, new_id, now, pure, ◌>>=◌}
use nomici_orchestrator.Scenarios.Base.{host, start}

abbrev agent : String → Agent
agent name = record {
  name = name;
  description = "";
  kind = kind_external;
  model = "";
  runtime = "cli";
  endpoint = "";
  role = "";
  instructions = "";
  tools = [];
  skills = [];
  tags = [];
  triggers = [];
  capabilities = [];
  permissions = [];
  runtime_profile = [];
  approval_policy = "";
  subagents = [];
  trust = "";
}

abbrev spec : Spec
spec = record {
  version = "0.1";
  project = record { name = "shop"; description = "" };
  models = [];
  runtimes =
      (
        "cli",
        record {
          kind = runtime_cli_agent;
          runner = "";
          workspace = "";
          start = record { command = ""; executable = ""; args = [] };
          invoke = record { executable = "codex"; args = []; stdin = "" };
          env = [];
          env_from = [];
          capabilities = [];
          trust = "";
          timeout_seconds = pos 0;
        },
      )
      ∷ [];
  agents = ("planner", agent "Planner") ∷ ("coder", agent "Coder") ∷ [];
  tools = [];
  mcp = [];
  edges = record { from = "planner"; to = "coder"; mode = "handoff" } ∷ [];
  policies = [];
  budgets = [];
  deployment = [];
  profiles = [];
  extensions = [];
}

abbrev loaded : Spec → LoadedSpec
loaded s = record { spec = s; sources = []; file = "nomici.yaml"; local_file = ""; raw = "raw" }

itoa_tests : (itoa 0 ≡ some "0") × (itoa 1205 ≡ some "1205") × (index_text 42 ≡ "42")
unfolding itoa fill index_text
itoa_tests = (refl, refl, refl)

itoa-IsDecimal_example :
    (s : String) × (itoa 1205 ≡ some s)
    × (number_of 0 (codes s) ≡ 1205)
    × All IsDigit (codes s)
    × (length (codes s) ≤ 19)
itoa-IsDecimal_example = itoa-IsDecimal 1205 (omega arith)

no_errors : validate (some (loaded spec)) ≡ []
unfolding validate Checks.check_spec Checks.check_version is_empty trim_space Checks.check_project
    Checks.check_all Checks.check_runtime Checks.check_agent Checks.check_agent_kind
    Checks.check_agent_runtime Checks.check_edges Checks.check_edge Checks.check_end
    Checks.known_edge_mode
no_errors = refl

validate-eq-nil_example : (validate (some (loaded spec)) ≡ []) ↔ IsWellFormed spec
validate-eq-nil_example = validate-eq-nil (loaded spec)

abbrev graph : Snapshot
graph = record {
  snapshot_id = "graph_0a1b";
  schema_version = "0.1";
  project_id = "shop";
  created_at = "2026-01-02T03:04:05Z";
  source_hash = "sha256:raw";
  ir = compile_ir (loaded spec) spec;
}

compiles : compile host (some (loaded spec)) start ≡ ok (compiled graph) (next (next start))
unfolding compile compile_checked compile_valid new_id now pure ◌>>=◌ validate Checks.check_spec
    Checks.check_version is_empty trim_space Checks.check_project Checks.check_all
    Checks.check_runtime Checks.check_agent Checks.check_agent_kind Checks.check_agent_runtime
    Checks.check_edges Checks.check_edge Checks.check_end Checks.known_edge_mode
compiles = refl

compile-IsClosed_example : IsWellFormed spec × IsClosed graph
compile-IsClosed_example = compile-IsClosed host (loaded spec) start compiles
