-- ===== src/AgentSpec/Checks.antt =====
-- internal/agentspec/validate.go: the errors of a specification, in the order in which they are found.
use nomici_orchestrator.Common.{
  ℕ, suc, String, ◌==◌, Bool, not, ◌&&◌, ◌||◌, Option, none, some, List, [], ◌∷◌, ◌++◌,
  if◌then◌else◌, any, is_empty, trim_space, ◌^+◌, has_key,
}
use nomici_orchestrator.Providers.{known_kind, normalize_kind, kind_anthropic, kind_gemini}
use nomici_orchestrator.AgentSpec.Decimal.{index_text}
use nomici_orchestrator.AgentSpec.Types.{
  Model, Runtime, Agent, Edge, Spec, ValidationError, LoadedSpec, source_of,
}

abbrev pub kind_gateway : String
kind_gateway = "gateway_agent"

abbrev pub kind_external : String
kind_external = "external_agent"

abbrev pub kind_model : String
kind_model = "model_agent"

abbrev pub kind_tool : String
kind_tool = "tool_agent"

abbrev pub runtime_cli_agent : String
runtime_cli_agent = "cli_agent"

abbrev pub runtime_local_process : String
runtime_local_process = "local_process"

abbrev pub blank : String → Bool
blank s = is_empty (trim_space s)

unfoldable pub quote : String → String
quote value = "\"" ^+ value ^+ "\""

abbrev pub edge_modes : List String
edge_modes =
    "handoff" ∷ "a2a" ∷ "tool_call" ∷ "mcp" ∷ "parallel" ∷ "fallback" ∷ "approval_required"
    ∷ "memory_read" ∷ "memory_write" ∷ []

unfoldable pub known_edge_mode : String → Bool
known_edge_mode mode = any (λ m. mode == m) edge_modes

unfoldable pub validation_error : LoadedSpec → String → String → String → String → ValidationError
validation_error loaded code path message remediation = record {
  code = code;
  message = message;
  remediation = remediation;
  source = source_of loaded path;
}

-- `if wrong { errors = append(errors, error) }`
abbrev pub error_if : Bool → ValidationError → List ValidationError
error_if wrong e = if wrong then e ∷ [] else []

module _ (loaded : LoadedSpec) where
  unfoldable pub check_version : String → List ValidationError
  check_version version =
      if blank version
      then validation_error loaded "missing_required" "version" "version is required"
          "Set version: \"0.1\"."
        ∷ []
      else error_if (not (version == "0.1")) (
          validation_error loaded "unsupported_version" "version"
            "only AgentSpec version 0.1 is supported" "Set version: \"0.1\".")

  unfoldable pub check_project : String → List ValidationError
  check_project name = error_if (blank name) (
      validation_error loaded "missing_required" "project.name" "project.name is required"
        "Set project.name to a stable project identifier.")

  unfoldable pub check_model_kind : String → String → List ValidationError
  check_model_kind path kind =
      if blank kind
      then validation_error loaded "missing_required" (path ^+ ".kind") "model kind is required"
          "Set profile to a local provider profile id, or set kind to openai_compatible, anthropic, gemini, ollama, codex_cli, or claude_code."
        ∷ []
      else error_if (not (known_kind kind)) (
          validation_error loaded "unsupported_model_kind" (path ^+ ".kind")
            ("model kind " ^+ quote kind ^+ " is not implemented")
            "Run `nomici provider list` and choose a supported adapter kind.")

  -- one turn of the loop over spec.Models
  unfoldable pub check_model : String × Model → List ValidationError
  check_model (id, model) =
      let path = "models." ^+ id in
      let kind = normalize_kind model.kind in
      if not (blank model.profile)
      then []
      else check_model_kind path model.kind
        ++ error_if (blank model.model) (
            validation_error loaded "missing_required" (path ^+ ".model") "model name is required"
              "Set model to the provider model name.")
        ++ error_if ((kind == kind_anthropic || kind == kind_gemini) && blank model.api_key_env) (
            validation_error loaded "missing_required" (path ^+ ".api_key_env")
              "api_key_env is required for cloud models"
              "Set api_key_env to an environment variable name such as OPENAI_API_KEY.")

  -- one turn of the loop over spec.Runtimes
  unfoldable pub check_runtime : String × Runtime → List ValidationError
  check_runtime (id, runtime) =
      let path = "runtimes." ^+ id in
      if runtime.kind == runtime_cli_agent
      then error_if (runtime.invoke.executable == "") (
          validation_error loaded "missing_required" (path ^+ ".invoke.executable")
            "cli_agent runtime requires invoke.executable"
            "Set invoke.executable to the command to run.")
      else if runtime.kind == runtime_local_process
      then error_if (blank runtime.start.executable && blank runtime.start.command) (
          validation_error loaded "missing_required" (path ^+ ".start")
            "local_process runtime requires start.executable or start.command"
            "Set start.executable and optional start.args for the process to manage.")
      else if runtime.kind == ""
      then validation_error loaded "missing_required" (path ^+ ".kind") "runtime kind is required"
          "Set kind to cli_agent for the current proof slice."
        ∷ []
      else validation_error loaded "unsupported_runtime_kind" (path ^+ ".kind")
          ("runtime kind " ^+ quote runtime.kind ^+ " is not executable in v0.1 yet")
          "Use cli_agent for invoke-only agents or local_process for managed long-running processes."
        ∷ []

  unfoldable pub check_agent_kind : String → String → List ValidationError
  check_agent_kind path kind =
      if kind == kind_gateway || kind == kind_external || kind == kind_model || kind == kind_tool
      then []
      else if kind == "native_agent"
      then validation_error loaded "unsupported_agent_kind" (path ^+ ".kind")
          "native_agent is not a v0.1 public kind"
          "Use gateway_agent for the minimal Gateway-run coordinator."
        ∷ []
      else if kind == ""
      then validation_error loaded "missing_required" (path ^+ ".kind") "agent kind is required"
          "Set kind to gateway_agent, external_agent, model_agent, or tool_agent."
        ∷ []
      else validation_error loaded "unsupported_agent_kind" (path ^+ ".kind")
          ("agent kind " ^+ quote kind ^+ " is not supported")
          "Use gateway_agent, external_agent, model_agent, or tool_agent."
        ∷ []

  unfoldable pub check_agent_runtime : Spec → String → String → List ValidationError
  check_agent_runtime spec path runtime =
      if blank runtime
      then validation_error loaded "missing_required" (path ^+ ".runtime")
          "external_agent requires a runtime reference" "Set runtime to a key under runtimes."
        ∷ []
      else error_if (not (has_key runtime spec.runtimes)) (
          validation_error loaded "missing_reference" (path ^+ ".runtime")
            ("agent references missing runtime " ^+ quote runtime)
            ("Define runtimes." ^+ runtime ^+ " or update the runtime reference."))

  -- one turn of the loop over spec.Agents
  unfoldable pub check_agent : Spec → String × Agent → List ValidationError
  check_agent spec (id, agent) =
      let path = "agents." ^+ id in
      check_agent_kind path agent.kind
      ++ error_if ((agent.kind == kind_gateway || agent.kind == kind_model) && blank agent.model) (
          validation_error loaded "missing_required" (path ^+ ".model")
            "model-backed agents require a model reference" "Set model to a key under models.")
      ++ error_if (not (agent.model == "") && not (has_key agent.model spec.models)) (
          validation_error loaded "missing_reference" (path ^+ ".model")
            ("agent references missing model " ^+ quote agent.model)
            ("Define models." ^+ agent.model ^+ " or update the agent model reference."))
      ++ (if agent.kind == kind_external then check_agent_runtime spec path agent.runtime else [])

  -- the check of one end of an edge
  unfoldable pub check_end : Spec → String → String → String → List ValidationError
  check_end spec path end agent =
      if agent == ""
      then validation_error loaded "missing_required" (path ^+ "." ^+ end)
          ("edge." ^+ end ^+ " is required") ("Set edge." ^+ end ^+ " to an agent id.")
        ∷ []
      else error_if (not (has_key agent spec.agents)) (
          validation_error loaded "missing_reference" (path ^+ "." ^+ end)
            ("edge." ^+ end ^+ " references missing agent " ^+ quote agent)
            ("Define agents." ^+ agent ^+ " or update the edge."))

  -- one turn of the loop over spec.Edges
  unfoldable pub check_edge : Spec → ℕ → Edge → List ValidationError
  check_edge spec index edge =
      let path = "edges[" ^+ index_text index ^+ "]" in
      check_end spec path "from" edge.from
      ++ check_end spec path "to" edge.to
      ++ error_if (not (known_edge_mode edge.mode)) (
          validation_error loaded "unsupported_edge_mode" (path ^+ ".mode")
            ("edge mode " ^+ quote edge.mode ^+ " is not supported")
            "Use handoff, a2a, tool_call, mcp, parallel, fallback, approval_required, memory_read, or memory_write.")

  -- `for … range` over a map
  unfoldable pub check_all :
      {A : Type 0} → (A → List ValidationError) → List A → List ValidationError
  check_all check [] = []
  check_all check (x ∷ xs) = check x ++ check_all check xs

  unfoldable pub check_edges : Spec → ℕ → List Edge → List ValidationError
  check_edges spec index [] = []
  check_edges spec index (edge ∷ edges) =
      check_edge spec index edge ++ check_edges spec (suc index) edges

  unfoldable pub check_spec : Spec → List ValidationError
  check_spec spec =
      check_version spec.version
      ++ (check_project spec.project.name
          ++ (check_all check_model spec.models
              ++ (check_all check_runtime spec.runtimes
                  ++ (check_all (check_agent spec) spec.agents ++ check_edges spec 0 spec.edges))))

-- Validate; `none` is a nil LoadedSpec, or one whose Spec is nil.
unfoldable pub validate : Option LoadedSpec → List ValidationError
validate none =
    record {
      code = "invalid_spec";
      message = "AgentSpec is empty.";
      remediation = "Create a nomici.yaml with version and project fields.";
      source = record { file = ""; path = "version"; line = 0 };
    }
    ∷ []
validate (some loaded) = check_spec loaded loaded.spec
