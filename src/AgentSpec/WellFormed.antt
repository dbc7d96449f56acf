-- ===== src/AgentSpec/WellFormed.antt =====
-- internal/agentspec/validate.go: what it is that Validate decides.
use nomici_orchestrator.Common.{
  ℕ, suc, String, ◌==◌, eq_iff, ◌≡◌, refl, ◌↔◌, ◌⊎◌, inl, inr, true, false, ◌||◌, some, List, [],
  ◌∷◌, ◌++◌, arith, All, any, has_key, is_empty, trim_space,
}
use nomici_orchestrator.Providers.{known_kind, normalize_kind, kind_anthropic, kind_gemini}
use nomici_orchestrator.AgentSpec.Types.{
  Model, Runtime, Agent, Edge, Spec, ValidationError, LoadedSpec,
}
use nomici_orchestrator.AgentSpec.Checks.{
  kind_gateway, kind_external, kind_model, kind_tool, runtime_cli_agent, runtime_local_process,
  blank, known_edge_mode, edge_modes, check_version, check_project, check_model_kind, check_model,
  check_runtime, check_agent_kind, check_agent_runtime, check_agent, check_end, check_edge,
  check_all, check_edges, check_spec, validate,
}

-- A model names a stored profile, or it is described whole: a kind that has an adapter, the name of
-- the model, and where the kind is a cloud service the variable that holds the key.
abbrev pub ModelIsWhole : String × Model → Type 0
ModelIsWhole (id, m) =
    (blank m.profile ≡ false)
    ⊎ ((blank m.kind ≡ false)
        × (known_kind m.kind ≡ true)
        × (blank m.model ≡ false)
        × ((normalize_kind m.kind == kind_anthropic || normalize_kind m.kind == kind_gemini ≡ false)
            ⊎ (blank m.api_key_env ≡ false)))

-- A runtime can be started.
abbrev pub RuntimeIsWhole : String × Runtime → Type 0
RuntimeIsWhole (id, r) =
    ((r.kind ≡ runtime_cli_agent) × (r.invoke.executable == "" ≡ false))
    ⊎ ((r.kind ≡ runtime_local_process)
        × ((blank r.start.executable ≡ false) ⊎ (blank r.start.command ≡ false)))

-- an agent has one of the four kinds, with the model or the runtime that the kind wants, and what it
-- names is there
pub record AgentIsWhole (spec : Spec) (entry : String × Agent) : Type 0 where
  pub kind :
      (entry.1.kind ≡ kind_gateway)
      ⊎ (entry.1.kind ≡ kind_external)
      ⊎ (entry.1.kind ≡ kind_model)
      ⊎ (entry.1.kind ≡ kind_tool)
  pub wants_model :
      (entry.1.kind ≡ kind_gateway) ⊎ (entry.1.kind ≡ kind_model) → blank entry.1.model ≡ false
  pub model : entry.1.model == "" ≡ false → has_key entry.1.model spec.models ≡ true
  pub runtime :
      entry.1.kind ≡ kind_external
      → (blank entry.1.runtime ≡ false) × (has_key entry.1.runtime spec.runtimes ≡ true)

pub record EdgeIsWhole (spec : Spec) (edge : Edge) : Type 0 where
  pub from : (edge.from == "" ≡ false) × (has_key edge.from spec.agents ≡ true)
  pub to : (edge.to == "" ≡ false) × (has_key edge.to spec.agents ≡ true)
  pub mode : any (λ m. edge.mode == m) edge_modes ≡ true

pub record IsWellFormed (spec : Spec) : Type 0 where
  pub version : spec.version ≡ "0.1"
  pub project : blank spec.project.name ≡ false
  pub models : All ModelIsWhole spec.models
  pub runtimes : All RuntimeIsWhole spec.runtimes
  pub agents : All (AgentIsWhole spec) spec.agents
  pub edges : All (EdgeIsWhole spec) spec.edges

append-eq-nil : {A : Type 0} (xs ys : List A) → (xs ++ ys ≡ []) ↔ ((xs ≡ []) × (ys ≡ []))
append-eq-nil [] ys = (λ h. (refl, h), λ h. h.1)
append-eq-nil (x ∷ xs) ys = (λ h. absurd (ground arith), λ h. absurd (ground arith))

check_all-eq-nil :
    {A : Type 0} (loaded : LoadedSpec) (check : A → List ValidationError) (P : A → Type 0)
    → ((a : A) → (check a ≡ []) ↔ P a)
    → (xs : List A) → (check_all loaded check xs ≡ []) ↔ All P xs
unfolding check_all
check_all-eq-nil loaded check P each [] = (λ h. tt, λ h. refl)
check_all-eq-nil loaded check P each (x ∷ xs) =
    let rest = check_all-eq-nil loaded check P each xs in
    let both = append-eq-nil (check x) (check_all loaded check xs) in
    (
      λ h. let (a, b) = both.0 h in ((each x).0 a, rest.0 b),
      λ h. both.1 ((each x).1 h.0, rest.1 h.1),
    )

module _ (loaded : LoadedSpec) where
  check_version-eq-nil :
      (version : String) → (check_version loaded version ≡ []) ↔ (version ≡ "0.1")
  unfolding check_version is_empty trim_space
  check_version-eq-nil version = (λ h. ground (arith, eq_iff version "0.1"), λ h. rw h refl)

  check_model-eq-nil :
      (entry : String × Model) → (check_model loaded entry ≡ []) ↔ ModelIsWhole entry
  unfolding check_model check_model_kind
  check_model-eq-nil (id, m) = (λ h. ground arith, λ h. ground arith)

  check_runtime-eq-nil :
      (entry : String × Runtime) → (check_runtime loaded entry ≡ []) ↔ RuntimeIsWhole entry
  unfolding check_runtime
  check_runtime-eq-nil (id, r) = (
    λ h. ground (arith, eq_iff r.kind runtime_cli_agent, eq_iff r.kind runtime_local_process),
    λ h. elim h [ inl (k, e) ↦ rw k (ground arith) | inr (k, e) ↦ rw k (ground arith) ],
  )

  check_agent-eq-nil :
      (spec : Spec) (entry : String × Agent)
      → (check_agent loaded spec entry ≡ []) ↔ AgentIsWhole spec entry
  unfolding check_agent check_agent_kind check_agent_runtime
  check_agent-eq-nil spec (id, a) = (
    λ h. ground (
      arith,
      eq_iff a.kind kind_gateway,
      eq_iff a.kind kind_external,
      eq_iff a.kind kind_model,
      eq_iff a.kind kind_tool,
    ),
    λ h. ground (
      arith,
      eq_iff a.kind kind_gateway,
      eq_iff a.kind kind_external,
      eq_iff a.kind kind_model,
      eq_iff a.kind kind_tool,
    ),
  )

  check_edge-eq-nil :
      (spec : Spec) (index : ℕ) (edge : Edge)
      → (check_edge loaded spec index edge ≡ []) ↔ EdgeIsWhole spec edge
  unfolding check_edge check_end known_edge_mode
  check_edge-eq-nil spec index edge = (λ h. ground arith, λ h. ground arith)

  check_edges-eq-nil :
      (spec : Spec) (index : ℕ) (edges : List Edge)
      → (check_edges loaded spec index edges ≡ []) ↔ All (EdgeIsWhole spec) edges
  unfolding check_edges
  check_edges-eq-nil spec index [] = (λ h. tt, λ h. refl)
  check_edges-eq-nil spec index (edge ∷ edges) =
      let rest = check_edges-eq-nil spec (suc index) edges in
      let one = check_edge-eq-nil spec index edge in
      let both = append-eq-nil (check_edge loaded spec index edge) _ in
      (λ h. let (a, b) = both.0 h in (one.0 a, rest.0 b), λ h. both.1 (one.1 h.0, rest.1 h.1))

  check_spec-eq-nil : (spec : Spec) → (check_spec loaded spec ≡ []) ↔ IsWellFormed spec
  unfolding check_spec check_project
  check_spec-eq-nil spec =
      let version = check_version-eq-nil spec.version in
      let models = check_all-eq-nil loaded _ _ check_model-eq-nil spec.models in
      let runtimes = check_all-eq-nil loaded _ _ check_runtime-eq-nil spec.runtimes in
      let agents = check_all-eq-nil loaded _ _ (check_agent-eq-nil spec) spec.agents in
      let edges = check_edges-eq-nil spec 0 spec.edges in
      (
        λ h.
            let (a, h₁) = (append-eq-nil _ _).0 h in
            let (b, h₂) = (append-eq-nil (check_project loaded spec.project.name) _).0 h₁ in
            let (c, h₃) = (append-eq-nil _ _).0 h₂ in
            let (d, h₄) = (append-eq-nil _ _).0 h₃ in
            let (e, f) = (append-eq-nil _ _).0 h₄ in
            record {
              version = version.0 a;
              project = named spec.project.name b;
              models = models.0 c;
              runtimes = runtimes.0 d;
              agents = agents.0 e;
              edges = edges.0 f;
            },
        λ h. (append-eq-nil _ _).1 (
          version.1 h.version,
          (append-eq-nil (check_project loaded spec.project.name) _).1 (
            rw h.project refl,
            (append-eq-nil _ _).1 (
              models.1 h.models,
              (append-eq-nil _ _).1 (
                runtimes.1 h.runtimes,
                (append-eq-nil _ _).1 (agents.1 h.agents, edges.1 h.edges),
              ),
            ),
          ),
        ),
      )
    where
      named : (name : String) → check_project loaded name ≡ [] → blank name ≡ false
      named name h = ground arith

-- Validate finds no error exactly where the specification is well formed: its version is 0.1 and its
-- project has a name; each model, each runtime and each agent is described as its kind wants; and
-- each model, runtime and agent that an agent or an edge names is defined.
pub validate-eq-nil :
    (loaded : LoadedSpec) → (validate (some loaded) ≡ []) ↔ IsWellFormed loaded.spec
unfolding validate
validate-eq-nil loaded = check_spec-eq-nil loaded loaded.spec
