-- ===== src/Graph/Encoding.antt =====
-- internal/graph/types.go: the JSON of the agents and runtimes of a compiled graph and of the graph
-- itself, and what they are read back as.
use nomici_orchestrator.Common.{String, Bool, ◌||◌, Option, some, List, [], ◌∷◌, any}
use nomici_orchestrator.Graph.Types.{Model, Agent, Runtime, Ir}
use nomici_orchestrator.Graph.Json.{
  Json, str, arr, obj, Fields, emit, omit_text, omit_integer, omit_slice, omit_map, elements,
  members, text_in, integer_in, slice_in, map_in, struct_in, ◌>>=◌,
}
use nomici_orchestrator.Graph.Parts.{
  read_text, read_pair, source_fields, read_source, model_fields, read_model, edge_fields,
  read_edge, start_fields, read_start, invoke_fields, read_invoke,
}

-- encoding/json on a value of type `any`, which the model keeps as its text: which values it refuses,
-- such as a number that is not finite, what the others are written as, and what that is read back as
pub record Values : Type 0 where
  pub refused : String → Bool
  pub written : String → Json
  pub read : Json → String

module _ (values : Values) where
  abbrev omit_values : List (String × String) → Option Json
  omit_values kvs = omit_map (λ (e : String × String). e.0) (λ e. values.written e.1) kvs

  abbrev read_value : String → Json → Option (String × String)
  read_value key value = some (key, values.read value)

  unfoldable pub agent_fields : Agent → Fields
  unfolding source_fields emit omit_text omit_slice omit_map
  agent_fields a =
      ("id", some (str a.id))
      ∷ ("name", omit_text a.name)
      ∷ ("description", omit_text a.description)
      ∷ ("kind", some (str a.kind))
      ∷ ("model", omit_text a.model)
      ∷ ("runtime", omit_text a.runtime)
      ∷ ("role", omit_text a.role)
      ∷ ("instructions", omit_text a.instructions)
      ∷ ("tools", omit_slice str a.tools)
      ∷ ("skills", omit_slice str a.skills)
      ∷ ("tags", omit_slice str a.tags)
      ∷ ("triggers", omit_slice str a.triggers)
      ∷ ("capabilities", omit_values a.capabilities)
      ∷ ("source", some (obj (emit (source_fields a.source))))
      ∷ []

  unfoldable pub read_agent : (String → Option Json) → Option Agent
  unfolding text_in slice_in map_in struct_in read_source ◌>>=◌
  read_agent field = do
    id ← text_in (field "id")
    name ← text_in (field "name")
    description ← text_in (field "description")
    kind ← text_in (field "kind")
    model ← text_in (field "model")
    runtime ← text_in (field "runtime")
    role ← text_in (field "role")
    instructions ← text_in (field "instructions")
    tools ← slice_in read_text (field "tools")
    skills ← slice_in read_text (field "skills")
    tags ← slice_in read_text (field "tags")
    triggers ← slice_in read_text (field "triggers")
    capabilities ← map_in read_value (field "capabilities")
    source ← struct_in read_source (field "source")
    some (record {
      id = id;
      name = name;
      description = description;
      kind = kind;
      model = model;
      runtime = runtime;
      role = role;
      instructions = instructions;
      tools = tools;
      skills = skills;
      tags = tags;
      triggers = triggers;
      capabilities = capabilities;
      source = source;
    })

  -- `omitempty` does not omit a struct
  unfoldable pub runtime_fields : Runtime → Fields
  unfolding source_fields start_fields invoke_fields emit omit_text omit_integer omit_slice omit_map
  runtime_fields r =
      ("id", some (str r.id))
      ∷ ("kind", some (str r.kind))
      ∷ ("runner", omit_text r.runner)
      ∷ ("workspace", omit_text r.workspace)
      ∷ ("start", some (obj (emit (start_fields r.start))))
      ∷ ("invoke", some (obj (emit (invoke_fields r.invoke))))
      ∷ ("env", omit_map (λ (e : String × String). e.0) (λ e. str e.1) r.env)
      ∷ ("env_from", omit_slice str r.env_from)
      ∷ ("capabilities", omit_values r.capabilities)
      ∷ ("trust", omit_text r.trust)
      ∷ ("timeout_seconds", omit_integer r.timeout_seconds)
      ∷ ("source", some (obj (emit (source_fields r.source))))
      ∷ []

  unfoldable pub read_runtime : (String → Option Json) → Option Runtime
  unfolding text_in integer_in slice_in map_in struct_in read_source read_start read_invoke ◌>>=◌
  read_runtime field = do
    id ← text_in (field "id")
    kind ← text_in (field "kind")
    runner ← text_in (field "runner")
    workspace ← text_in (field "workspace")
    start ← struct_in read_start (field "start")
    invoke ← struct_in read_invoke (field "invoke")
    env ← map_in read_pair (field "env")
    env_from ← slice_in read_text (field "env_from")
    capabilities ← map_in read_value (field "capabilities")
    trust ← text_in (field "trust")
    timeout_seconds ← integer_in (field "timeout_seconds")
    source ← struct_in read_source (field "source")
    some (record {
      id = id;
      kind = kind;
      runner = runner;
      workspace = workspace;
      start = start;
      invoke = invoke;
      env = env;
      env_from = env_from;
      capabilities = capabilities;
      trust = trust;
      timeout_seconds = timeout_seconds;
      source = source;
    })

  -- the values of the maps of the graph, which stand under their identifiers
  unfoldable pub ir_fields : Ir → Fields
  unfolding model_fields runtime_fields agent_fields edge_fields emit members elements omit_map
  ir_fields ir =
      (
        "models",
        some (obj (members (λ (m : Model). m.id) (λ m. obj (emit (model_fields m))) ir.models)),
      )
      ∷ (
        "runtimes",
        omit_map (λ (r : Runtime). r.id) (λ r. obj (emit (runtime_fields r))) ir.runtimes,
      )
      ∷ (
        "agents",
        some (obj (members (λ (a : Agent). a.id) (λ a. obj (emit (agent_fields a))) ir.agents)),
      )
      ∷ ("edges", some (arr (elements (λ e. obj (emit (edge_fields e))) ir.edges)))
      ∷ []

  unfoldable pub read_ir : (String → Option Json) → Option Ir
  unfolding slice_in map_in struct_in read_model read_runtime read_agent read_edge ◌>>=◌
  read_ir field = do
    models ← map_in (λ key value. struct_in read_model (some value)) (field "models")
    runtimes ← map_in (λ key value. struct_in read_runtime (some value)) (field "runtimes")
    agents ← map_in (λ key value. struct_in read_agent (some value)) (field "agents")
    edges ← slice_in (λ value. struct_in read_edge (some value)) (field "edges")
    some (record { models = models; runtimes = runtimes; agents = agents; edges = edges })

  -- whether json.Marshal refuses the graph: a value of its capabilities has no JSON
  unfoldable pub marshal_fails : Ir → Bool
  marshal_fails ir =
      any (λ (a : Agent). any (λ (e : String × String). values.refused e.1) a.capabilities)
        ir.agents
      || any (λ (r : Runtime). any (λ (e : String × String). values.refused e.1) r.capabilities)
          ir.runtimes

  -- json.Marshal where it does not fail, and json.Unmarshal
  unfoldable pub marshal : Ir → Json
  unfolding ir_fields emit
  marshal ir = obj (emit (ir_fields ir))

  unfoldable pub unmarshal : Json → Option Ir
  unfolding read_ir struct_in
  unmarshal value = struct_in read_ir (some value)
