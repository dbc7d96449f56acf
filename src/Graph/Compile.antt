-- ===== src/Graph/Compile.antt =====
-- internal/graph/compiler.go: the compiler from specifications to graphs.
use nomici_orchestrator.Common.{
  ℕ, suc, String, ◌==◌, ◌&&◌, Option, none, some, List, [], ◌∷◌, map, if◌then◌else◌, ◌^+◌,
}
use nomici_orchestrator.Paths.{Host}
use nomici_orchestrator.Providers.{normalize_kind, default_base_url}
use nomici_orchestrator.AgentSpec.Types as Spec
use nomici_orchestrator.AgentSpec.Types.{Spec, LoadedSpec, ValidationError, source_of}
use nomici_orchestrator.AgentSpec.Decimal.{index_text}
use nomici_orchestrator.AgentSpec.Checks.{validate}
use nomici_orchestrator.Graph.Types.{Model, Runtime, Agent, Edge, Ir, Snapshot}
use nomici_orchestrator.Store.{Exec, pure, now, new_id, ◌>>=◌}

-- internal/agentspec/validate.go SourceHash
source_hash : Host → String → String
source_hash host raw = "sha256:" ^+ host.sha256_hex raw

module _ (loaded : LoadedSpec) where
  unfoldable pub compile_model : String × Spec.Model → Model
  compile_model (id, model) = record {
    id = id;
    profile = model.profile;
    kind = normalize_kind model.kind;
    base_url =
        if model.base_url == "" && model.profile == ""
        then default_base_url model.kind
        else model.base_url;
    api_key_env = model.api_key_env;
    model = model.model;
    capabilities = model.capabilities;
    context_window = model.context_window;
    source = source_of loaded ("models." ^+ id);
  }

  unfoldable pub compile_runtime : String × Spec.Runtime → Runtime
  compile_runtime (id, runtime) = record {
    id = id;
    kind = runtime.kind;
    runner = runtime.runner;
    workspace = runtime.workspace;
    start = record {
      command = runtime.start.command;
      executable = runtime.start.executable;
      args = runtime.start.args;
    };
    invoke = record {
      executable = runtime.invoke.executable;
      args = runtime.invoke.args;
      stdin = runtime.invoke.stdin;
    };
    env = runtime.env;
    env_from = runtime.env_from;
    capabilities = runtime.capabilities;
    trust = runtime.trust;
    timeout_seconds = runtime.timeout_seconds;
    source = source_of loaded ("runtimes." ^+ id);
  }

  unfoldable pub compile_agent : String × Spec.Agent → Agent
  compile_agent (id, agent) = record {
    id = id;
    name = agent.name;
    description = agent.description;
    kind = agent.kind;
    model = agent.model;
    runtime = agent.runtime;
    role = agent.role;
    instructions = agent.instructions;
    tools = agent.tools;
    skills = agent.skills;
    tags = agent.tags;
    triggers = agent.triggers;
    capabilities = agent.capabilities;
    source = source_of loaded ("agents." ^+ id);
  }

  unfoldable pub compile_edge : ℕ → Spec.Edge → Edge
  compile_edge index edge = record {
    id = "edge_" ^+ index_text (suc index);
    from = edge.from;
    to = edge.to;
    mode = edge.mode;
    source = source_of loaded ("edges[" ^+ index_text index ^+ "]");
  }

  unfoldable pub compile_edges : ℕ → List Spec.Edge → List Edge
  unfolding compile_edge
  compile_edges index [] = []
  compile_edges index (edge ∷ edges) = compile_edge index edge ∷ compile_edges (suc index) edges

  unfoldable pub compile_ir : Spec → Ir
  compile_ir spec = record {
    models = map compile_model spec.models;
    runtimes = map compile_runtime spec.runtimes;
    agents = map compile_agent spec.agents;
    edges = compile_edges 0 spec.edges;
  }

-- what Compile returns
pub data Compiled : Type 0 where
  compiled : Snapshot → Compiled
  invalid : List ValidationError → Compiled

-- a specification without errors
unfoldable pub compile_valid : Host → LoadedSpec → Exec Compiled
unfolding source_hash
compile_valid host loaded = do
  snapshot_id ← new_id "graph"
  created_at ← now
  pure (
      compiled (record {
        snapshot_id = snapshot_id;
        schema_version = loaded.spec.version;
        project_id = loaded.spec.project.name;
        created_at = created_at;
        source_hash = source_hash host loaded.raw;
        ir = compile_ir loaded loaded.spec;
      }))

unfoldable pub compile_checked : Host → Option LoadedSpec → List ValidationError → Exec Compiled
compile_checked host loaded (e ∷ errors) = pure (invalid (e ∷ errors))
compile_checked host (some loaded) [] = compile_valid host loaded
compile_checked host none [] = pure (invalid [])

-- Compile; `validate` has an error where there is no specification.
unfoldable pub compile : Host → Option LoadedSpec → Exec Compiled
compile host loaded = compile_checked host loaded (validate loaded)
