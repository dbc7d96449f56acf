-- ===== src/Graph/Encoded.antt =====
-- internal/graph/types.go: that the JSON of a compiled graph is read back as the graph.
use nomici_orchestrator.Common.{pos, String, ◌≡◌, refl, ◌∙◌, ap, some, List, [], ◌∷◌, map}
use nomici_orchestrator.AgentSpec.Types.{Source}
use nomici_orchestrator.Graph.Types.{Model, Agent, RuntimeStart, RuntimeInvoke, Runtime, Edge, Ir}
use nomici_orchestrator.Graph.Json.{
  str, obj, emit, omit_slice, omit_map, text_in, slice_in, map_in, struct_in, ◌>>=◌,
}
use nomici_orchestrator.Graph.Parts.{
  read_text, read_pair, source_fields, read_source, model_fields, read_model, edge_fields,
  read_edge, start_fields, read_start, invoke_fields, read_invoke,
}
use nomici_orchestrator.Graph.Encoding.{
  Values, agent_fields, read_agent, runtime_fields, read_runtime, ir_fields, read_ir, marshal,
  unmarshal,
}
use nomici_orchestrator.Graph.Fields.{
  struct_in-emit, text_in-omit_text, integer_in-omit_integer, slice_in-elements,
  slice_in-omit_slice, map_in-members, map_in-omit_map,
}

map_id : {A : Type 0} (xs : List A) → map (λ x. x) xs ≡ xs
map_id [] = refl
map_id (x ∷ xs) = ap (λ ys. x ∷ ys) (map_id xs)

texts-back : (xs : List String) → slice_in read_text (omit_slice str xs) ≡ some xs
unfolding text_in
texts-back xs = slice_in-omit_slice str (λ x. x) read_text (λ x. refl) xs ∙ ap some (map_id xs)

env-back :
    (kvs : List (String × String))
    → map_in read_pair (omit_map (λ (e : String × String). e.0) (λ e. str e.1) kvs) ≡ some kvs
unfolding text_in ◌>>=◌
env-back kvs =
    map_in-omit_map (λ (e : String × String). str e.1) (λ e. e) (λ e. e.0) read_pair (λ e. refl) kvs
    ∙ ap some (map_id kvs)

source-back : (s : Source) → struct_in read_source (some (obj (emit (source_fields s)))) ≡ some s
unfolding read_source source_fields text_in ◌>>=◌
source-back s =
    struct_in-emit read_source (source_fields s) refl
    ∙ rw (integer_in-omit_integer (pos s.line)) refl

model-back : (m : Model) → struct_in read_model (some (obj (emit (model_fields m)))) ≡ some m
unfolding read_model model_fields text_in ◌>>=◌
model-back m =
    struct_in-emit read_model (model_fields m) refl
    ∙ rw
        (
          text_in-omit_text m.profile,
          text_in-omit_text m.api_key_env,
          texts-back m.capabilities,
          integer_in-omit_integer m.context_window,
          source-back m.source,
        )
        refl

edge-back : (e : Edge) → struct_in read_edge (some (obj (emit (edge_fields e)))) ≡ some e
unfolding read_edge edge_fields text_in ◌>>=◌
edge-back e = struct_in-emit read_edge (edge_fields e) refl ∙ rw (source-back e.source) refl

start-back : (s : RuntimeStart) → struct_in read_start (some (obj (emit (start_fields s)))) ≡ some s
unfolding read_start start_fields ◌>>=◌
start-back s =
    struct_in-emit read_start (start_fields s) refl
    ∙ rw (text_in-omit_text s.command, text_in-omit_text s.executable, texts-back s.args) refl

invoke-back :
    (v : RuntimeInvoke) → struct_in read_invoke (some (obj (emit (invoke_fields v)))) ≡ some v
unfolding read_invoke invoke_fields ◌>>=◌
invoke-back v =
    struct_in-emit read_invoke (invoke_fields v) refl
    ∙ rw (text_in-omit_text v.executable, texts-back v.args, text_in-omit_text v.stdin) refl

module _ (values : Values) where
  -- Capabilities as they are read back: each value is what the JSON of it reads as.
  abbrev pub values_back : List (String × String) → List (String × String)
  values_back kvs = map (λ (e : String × String). (e.0, values.read (values.written e.1))) kvs

  abbrev pub agent_read_back : Agent → Agent
  agent_read_back a = record a { capabilities = values_back a.capabilities }

  abbrev pub runtime_read_back : Runtime → Runtime
  runtime_read_back r = record r { capabilities = values_back r.capabilities }

  abbrev pub ir_read_back : Ir → Ir
  ir_read_back ir = record ir {
    runtimes = map runtime_read_back ir.runtimes;
    agents = map agent_read_back ir.agents;
  }

  values-back :
      (kvs : List (String × String))
      → map_in
          (λ key value. some (key, values.read value))
          (omit_map (λ (e : String × String). e.0) (λ e. values.written e.1) kvs)
        ≡ some (values_back kvs)
  values-back kvs =
      map_in-omit_map (λ (e : String × String). values.written e.1)
        (λ e. (e.0, values.read (values.written e.1))) (λ e. e.0)
        (λ key value. some (key, values.read value)) (λ e. refl) kvs

  agent-back :
      (a : Agent)
      → struct_in (read_agent values) (some (obj (emit (agent_fields values a))))
        ≡ some (agent_read_back a)
  unfolding read_agent agent_fields text_in ◌>>=◌
  agent-back a =
      struct_in-emit (read_agent values) (agent_fields values a) refl
      ∙ rw
          (
            text_in-omit_text a.name,
            text_in-omit_text a.description,
            text_in-omit_text a.model,
            text_in-omit_text a.runtime,
            text_in-omit_text a.role,
            text_in-omit_text a.instructions,
            texts-back a.tools,
            texts-back a.skills,
            texts-back a.tags,
            texts-back a.triggers,
            values-back a.capabilities,
            source-back a.source,
          )
          refl

  runtime-back :
      (r : Runtime)
      → struct_in (read_runtime values) (some (obj (emit (runtime_fields values r))))
        ≡ some (runtime_read_back r)
  unfolding read_runtime runtime_fields text_in ◌>>=◌
  runtime-back r =
      struct_in-emit (read_runtime values) (runtime_fields values r) refl
      ∙ rw
          (
            text_in-omit_text r.runner,
            text_in-omit_text r.workspace,
            start-back r.start,
            invoke-back r.invoke,
            env-back r.env,
            texts-back r.env_from,
            values-back r.capabilities,
            text_in-omit_text r.trust,
            integer_in-omit_integer r.timeout_seconds,
            source-back r.source,
          )
          refl

  -- json.Unmarshal reads the JSON of a graph as the graph, up to the values of capabilities.
  pub unmarshal-marshal : (ir : Ir) → unmarshal values (marshal values ir) ≡ some (ir_read_back ir)
  unfolding unmarshal marshal read_ir ir_fields ◌>>=◌
  unmarshal-marshal ir =
      struct_in-emit (read_ir values) (ir_fields values ir) refl
      ∙ rw
          (
            map_in-members (λ m. obj (emit (model_fields m))) (λ m. m) (λ m. m.id)
                (λ key value. struct_in read_model (some value)) model-back ir.models,
            map_in-omit_map (λ r. obj (emit (runtime_fields values r))) runtime_read_back
                (λ r. r.id) (λ key value. struct_in (read_runtime values) (some value)) runtime-back
                ir.runtimes,
            map_in-members (λ a. obj (emit (agent_fields values a))) agent_read_back (λ a. a.id)
                (λ key value. struct_in (read_agent values) (some value)) agent-back ir.agents,
            slice_in-elements (λ e. obj (emit (edge_fields e))) (λ e. e)
                (λ value. struct_in read_edge (some value)) edge-back ir.edges,
            map_id ir.models,
            map_id ir.edges,
          )
          refl
