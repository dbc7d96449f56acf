-- ===== src/Scenarios/Graph.antt =====
-- internal/graph/store.go on a graph with a model, an agent that has a capability, and an edge.
use nomici_orchestrator.Common.{
  String, ◌==◌, ◌≡◌, refl, false, none, some, if◌then◌else◌, [], ◌∷◌, pos, is_empty,
}
use nomici_orchestrator.Common.Table
use nomici_orchestrator.AgentSpec.Types.{Source}
use nomici_orchestrator.Graph.Types.{Model, Agent, Edge, Snapshot}
use nomici_orchestrator.Graph.Json.{Json, num, str, arr, obj, cons, nil, member, end, emit}
use nomici_orchestrator.Graph.Parts.{model_fields}
use nomici_orchestrator.Graph.Encoding.{unmarshal, marshal_fails}
use nomici_orchestrator.Graph.Snapshots.{Codec, row_of, insert_snapshot, save, get, scan_snapshot}
use nomici_orchestrator.Graph.Stored.{answer, get-save}
use nomici_orchestrator.Store.{World, Error.external, ok, err, next, refuse_if, row, ◌>>=◌}
use nomici_orchestrator.Scenarios.Base.{start}

abbrev source : Source
source = record { file = "nomici.yaml"; path = "agents.coder"; line = 7 }

abbrev model : Model
model = record {
  id = "local";
  profile = "";
  kind = "ollama";
  base_url = "http://127.0.0.1:11434/v1";
  api_key_env = "";
  model = "mistral";
  capabilities = "chat" ∷ "tools" ∷ [];
  context_window = pos 8192;
  source = source;
}

abbrev coder : Agent
coder = record {
  id = "coder";
  name = "Coder";
  description = "";
  kind = "worker";
  model = "local";
  runtime = "";
  role = "";
  instructions = "";
  tools = "fs.read" ∷ [];
  skills = [];
  tags = [];
  triggers = [];
  capabilities = ("retries", "3") ∷ [];
  source = source;
}

abbrev edge : Edge
edge = record { id = "edge_0"; from = "coder"; to = "coder"; mode = "handoff"; source = source }

abbrev graph : Snapshot
graph = record {
  snapshot_id = "graph_0a1b";
  schema_version = "0.1";
  project_id = "shop";
  created_at = "2026-01-02T03:04:05Z";
  source_hash = "sha256:raw";
  ir = record { models = model ∷ []; runtimes = []; agents = coder ∷ []; edges = edge ∷ [] };
}

-- an integer of a value of type `any` is read back as a float64
abbrev read_any : Json → String
read_any (str s) = s
read_any (num n) = "3.0"
read_any value = ""

abbrev codec : Codec
codec = record {
  values = record { refused = λ v. v == ".nan"; written = λ v. num (pos 3); read = read_any };
  parse_time = λ s. if is_empty s then none else some s;
}

abbrev source_json : Json
source_json = obj (
    member "file" (str "nomici.yaml")
      (member "path" (str "agents.coder") (member "line" (num (pos 7)) end)))

marshal_model :
    emit (model_fields model)
    ≡ member "id" (str "local") (
        member "kind" (str "ollama") (
          member "base_url" (str "http://127.0.0.1:11434/v1") (
            member "model" (str "mistral") (
              member "capabilities"
                (arr (cons (str "chat") (cons (str "tools") nil)))
                (member "context_window" (num (pos 8192)) (member "source" source_json end))))))
unfolding model_fields is_empty
marshal_model = refl

abbrev saved : World
saved = record (next start) { db = record start.db { graph_snapshots = row_of codec graph ∷ [] } }

saves : save codec graph start ≡ ok tt saved
unfolding save refuse_if ◌>>=◌ marshal_fails insert_snapshot Table.insert
saves = refl

-- the text of a time that time.Parse refuses
undated :
    scan_snapshot codec (some (record (row_of codec graph) { created_at = "" })) start
    ≡ err (external "parse graph snapshot time") start
unfolding scan_snapshot row ◌>>=◌ is_empty
undated = refl

-- a graph whose JSON is no object
undecoded :
    scan_snapshot codec (some (record (row_of codec graph) { ir_json = str "" })) start
    ≡ err (external "decode graph IR") start
unfolding scan_snapshot row ◌>>=◌ is_empty unmarshal
undecoded = refl

get-save_example :
    (get codec "graph_0a1b" saved
      ≡ ok
          (record graph {
            ir = record {
              models = model ∷ [];
              runtimes = [];
              agents = record coder { capabilities = ("retries", "3.0") ∷ [] } ∷ [];
              edges = edge ∷ [];
            };
          })
          (next saved))
    × ((id : String)
        → "graph_0a1b" == id ≡ false
        → answer (get codec id saved) ≡ answer (get codec id (next start)))
unfolding is_empty
get-save_example = get-save codec graph start saves refl refl refl
