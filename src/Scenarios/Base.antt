-- ===== src/Scenarios/Base.antt =====
-- A host, an environment, an empty world and the parts of graphs for the runs.
use nomici_orchestrator.Common.{ℕ, zero, suc, ◌^+◌, String, some, false, List, [], pos}
use nomici_orchestrator.AgentSpec.Types.{Source}
use nomici_orchestrator.Graph.Types.{Model, Agent, Runtime, Edge, Snapshot}
use nomici_orchestrator.Paths.{Host}
use nomici_orchestrator.Store.{Env, World, empty_db}

abbrev pub host : Host
host = record { working_directory = some "/home/user"; windows = false; sha256_hex = λ s. s }

abbrev pub env : Env
env = record { now = λ n. "2026-01-02T03:04:05Z"; random = λ n. "0a1b"; fails = λ n. false }

abbrev pub start : World
start = record { env = env; tick = 0; db = empty_db }

abbrev tally : ℕ → String
tally zero = ""
tally (suc n) = "i" ^+ tally n

-- an empty world where every call draws another identifier
abbrev pub varied : World
varied = record start { env = record env { random = tally } }

abbrev pub no_source : Source
no_source = record { file = "nomici.yaml"; path = ""; line = 0 }

abbrev pub graph_agent : String → String → String → String → Agent
graph_agent id kind model runtime = record {
  id = id;
  name = id;
  description = "";
  kind = kind;
  model = model;
  runtime = runtime;
  role = "";
  instructions = "";
  tools = [];
  skills = [];
  tags = [];
  triggers = [];
  capabilities = [];
  source = no_source;
}

abbrev pub graph_runtime : String → String → Runtime
graph_runtime id kind = record {
  id = id;
  kind = kind;
  runner = "";
  workspace = "";
  start = record { command = ""; executable = ""; args = [] };
  invoke = record { executable = id; args = []; stdin = "" };
  env = [];
  env_from = [];
  capabilities = [];
  trust = "";
  timeout_seconds = pos 0;
  source = no_source;
}

abbrev pub graph_edge : String → String → String → String → Edge
graph_edge id from to mode = record {
  id = id;
  from = from;
  to = to;
  mode = mode;
  source = no_source;
}

abbrev pub graph_snapshot : List Agent → List Runtime → List Model → List Edge → Snapshot
graph_snapshot agents runtimes models edges = record {
  snapshot_id = "graph_1";
  schema_version = "0.1";
  project_id = "proj";
  created_at = "2026-01-01T00:00:00Z";
  source_hash = "sha256:";
  ir = record { models = models; runtimes = runtimes; agents = agents; edges = edges };
}
