-- ===== src/Graph/Parts.antt =====
-- internal/graph/types.go and Source of internal/agentspec/types.go: the JSON of the parts of a compiled
-- graph, by the tags of their structs, and what it is read back as. A list that is empty stands for a
-- nil slice or map too: both are read back as nothing.
use nomici_orchestrator.Common.{ℕ, ℤ, pos, negsuc, String, Option, none, some, [], ◌∷◌}
use nomici_orchestrator.AgentSpec.Types.{Source}
use nomici_orchestrator.Graph.Types.{Model, RuntimeStart, RuntimeInvoke, Edge}
use nomici_orchestrator.Graph.Json.{
  Json, str, obj, Fields, emit, omit_text, omit_integer, omit_slice, text_in, integer_in, slice_in,
  struct_in, ◌>>=◌,
}

abbrev pub read_text : Json → Option String
read_text value = text_in (some value)

abbrev pub read_pair : String → Json → Option (String × String)
unfolding text_in ◌>>=◌
read_pair key value = do s ← text_in (some value); some (key, s)

unfoldable pub source_fields : Source → Fields
source_fields s =
    ("file", some (str s.file))
    ∷ ("path", some (str s.path))
    ∷ ("line", omit_integer (pos s.line))
    ∷ []

-- a line is not negative where it was written
abbrev pub line_of : ℤ → Option ℕ
line_of (pos n) = some n
line_of (negsuc n) = none

unfoldable pub read_source : (String → Option Json) → Option Source
unfolding text_in integer_in ◌>>=◌
read_source field = do
  file ← text_in (field "file")
  path ← text_in (field "path")
  number ← integer_in (field "line")
  line ← line_of number
  some (record { file = file; path = path; line = line })

unfoldable pub model_fields : Model → Fields
unfolding source_fields emit omit_text omit_integer omit_slice
model_fields m =
    ("id", some (str m.id))
    ∷ ("profile", omit_text m.profile)
    ∷ ("kind", some (str m.kind))
    ∷ ("base_url", some (str m.base_url))
    ∷ ("api_key_env", omit_text m.api_key_env)
    ∷ ("model", some (str m.model))
    ∷ ("capabilities", omit_slice str m.capabilities)
    ∷ ("context_window", omit_integer m.context_window)
    ∷ ("source", some (obj (emit (source_fields m.source))))
    ∷ []

unfoldable pub read_model : (String → Option Json) → Option Model
unfolding text_in integer_in slice_in struct_in read_source ◌>>=◌
read_model field = do
  id ← text_in (field "id")
  profile ← text_in (field "profile")
  kind ← text_in (field "kind")
  base_url ← text_in (field "base_url")
  api_key_env ← text_in (field "api_key_env")
  model ← text_in (field "model")
  capabilities ← slice_in read_text (field "capabilities")
  context_window ← integer_in (field "context_window")
  source ← struct_in read_source (field "source")
  some (record {
    id = id;
    profile = profile;
    kind = kind;
    base_url = base_url;
    api_key_env = api_key_env;
    model = model;
    capabilities = capabilities;
    context_window = context_window;
    source = source;
  })

unfoldable pub edge_fields : Edge → Fields
unfolding source_fields emit
edge_fields e =
    ("id", some (str e.id))
    ∷ ("from", some (str e.from))
    ∷ ("to", some (str e.to))
    ∷ ("mode", some (str e.mode))
    ∷ ("source", some (obj (emit (source_fields e.source))))
    ∷ []

unfoldable pub read_edge : (String → Option Json) → Option Edge
unfolding text_in struct_in read_source ◌>>=◌
read_edge field = do
  id ← text_in (field "id")
  from ← text_in (field "from")
  to ← text_in (field "to")
  mode ← text_in (field "mode")
  source ← struct_in read_source (field "source")
  some (record { id = id; from = from; to = to; mode = mode; source = source })

unfoldable pub start_fields : RuntimeStart → Fields
unfolding omit_text omit_slice
start_fields s =
    ("command", omit_text s.command)
    ∷ ("executable", omit_text s.executable)
    ∷ ("args", omit_slice str s.args)
    ∷ []

unfoldable pub read_start : (String → Option Json) → Option RuntimeStart
unfolding text_in slice_in ◌>>=◌
read_start field = do
  command ← text_in (field "command")
  executable ← text_in (field "executable")
  args ← slice_in read_text (field "args")
  some (record { command = command; executable = executable; args = args })

unfoldable pub invoke_fields : RuntimeInvoke → Fields
unfolding omit_text omit_slice
invoke_fields i =
    ("executable", omit_text i.executable)
    ∷ ("args", omit_slice str i.args)
    ∷ ("stdin", omit_text i.stdin)
    ∷ []

unfoldable pub read_invoke : (String → Option Json) → Option RuntimeInvoke
unfolding text_in slice_in ◌>>=◌
read_invoke field = do
  executable ← text_in (field "executable")
  args ← slice_in read_text (field "args")
  stdin ← text_in (field "stdin")
  some (record { executable = executable; args = args; stdin = stdin })
