-- ===== src/Executor/Valid.antt =====
-- internal/runs/executor.go: what Validate lets through.
use nomici_orchestrator.Common.{
  String, ◌==◌, eq_iff, ◌≡◌, refl, ap, sym, ◌∙◌, subst, ◌⊎◌, inl, inr, true, not, ◌&&◌, Option,
  none, some, List, [], ◌∷◌, arith, any, Bool-cases, is_empty, trim_space,
}
use nomici_orchestrator.Common.Table.Laws.{find-eq-some, All-always}
use nomici_orchestrator.Graph.Types.{Agent, Runtime, Edge, Snapshot}
use nomici_orchestrator.Executor.{
  Refusal, Walk, edges, stopped, exhausted, Result, good, bad, agent_of, cli_runtime_for_agent,
  outgoing_edges, executable_handoff_chain, kind_external, kind_gateway, kind_model, validate,
  validate_agent, validate_edges, with_chain,
}
use nomici_orchestrator.Executor.Termination.{Result-cases}
use nomici_orchestrator.Executor.Chain.{PathFrom, ends, executable_handoff_chain-PathFrom}

-- An agent that can be executed along a chain: an external agent with a command-line runtime, from which
-- the chain leads to agents of the same kind; or a gateway or a model agent whose model is there, with
-- no chain.
abbrev pub IsExecutable : Snapshot → Agent → List Edge → Type 0
IsExecutable s agent chain =
    ((agent.kind ≡ kind_external)
      × ((r : Runtime) × (cli_runtime_for_agent s agent ≡ good r))
      × ((path : List (Agent × Runtime)) × PathFrom s (agent.id ∷ []) agent chain path))
    ⊎ ((any (λ m. m.id == agent.model) s.ir.models ≡ true) × (chain ≡ []))

-- what Validate returns
abbrev pub answer : Agent → List Edge → Result (Agent × List Edge)
answer agent chain = good (agent, chain)

module _ (s : Snapshot) {agent : Agent} {chain : List Edge} where
  refused_not : {r : Refusal} → bad r ≡ answer agent chain → ⊥
  refused_not k = ground arith

  with_chain-good :
      (a : Agent) (w : Walk) → with_chain a w ≡ answer agent chain → (a ≡ agent) × (w ≡ edges chain)
  unfolding with_chain
  with_chain-good a (edges es) h = (ground arith, ground arith)
  with_chain-good a (stopped r) h = absurd (refused_not h)
  with_chain-good a exhausted h = absurd (refused_not h)

  validate_edges-IsExecutable :
      (a : Agent) (es : List Edge)
      → outgoing_edges s a.id ≡ es
      → validate_edges s a es ≡ answer agent chain
      → (a ≡ agent) × IsExecutable s agent chain
  unfolding validate_edges
  validate_edges-IsExecutable a [] only h = elim (Bool-cases (a.kind == kind_external)) [
    | inl e ↦ elim (Result-cases (cli_runtime_for_agent s a)) [
      | inr (b, g) ↦ absurd (refused_not (rw (e, g, validate_edges) at h))
      | inl (r, g) ↦
          let same : answer a [] ≡ answer agent chain = rw (e, g, validate_edges) at h in
          let is : a ≡ agent = ground arith in
          let none_left : [] ≡ chain = ground arith in
          (
            is,
            subst (λ x. IsExecutable s x chain) is
                (subst (IsExecutable s a) none_left
                  (inl ((eq_iff a.kind kind_external).0 e, (r, g), ([], ends (a.id ∷ []) a only)))),
          )
    ]
    | inr e ↦ elim (Bool-cases (any (λ m. m.id == a.model) s.ir.models)) [
      | inl m ↦
          let same : answer a [] ≡ answer agent chain = rw (e, m, validate_edges) at h in
          let is : a ≡ agent = ground arith in
          let none_left : [] ≡ chain = ground arith in
          (is, subst (λ x. IsExecutable s x chain) is (inr (m, sym none_left)))
      | inr m ↦ absurd (refused_not (rw (e, m, validate_edges) at h))
    ]
  ]
  validate_edges-IsExecutable a (x ∷ es) only h = elim (Bool-cases (a.kind == kind_external)) [
    | inl e ↦
        let (is, walked) =
          with_chain-good a (executable_handoff_chain s a) (rw (e, validate_edges) at h) in
        let (r, path, _, runs, way) = executable_handoff_chain-PathFrom s a chain walked in
        (
          is,
          subst (λ x. IsExecutable s x chain) is
              (inl ((eq_iff a.kind kind_external).0 e, (r, runs), (path, way))),
        )
    | inr e ↦ absurd (refused_not (rw (e, validate_edges) at h))
  ]

  validate_agent-IsExecutable :
      (id : String) (o : Option Agent)
      → agent_of s id ≡ o
      → validate_agent s id o ≡ answer agent chain
      → (agent_of s id ≡ some agent) × IsExecutable s agent chain
  unfolding validate_agent agent_of
  validate_agent-IsExecutable id none found h = absurd (refused_not h)
  validate_agent-IsExecutable id (some a) found h =
      elim (Bool-cases (
        not (a.kind == kind_gateway)
        && not (a.kind == kind_model)
        && not (a.kind == kind_external))) [
          | inl e ↦ absurd (refused_not (rw (e, validate_agent) at h))
          | inr e ↦
              let k : validate_edges s a (outgoing_edges s id) ≡ answer agent chain =
                rw (e, validate_agent) at h in
              let named : a.id ≡ id =
                (eq_iff a.id id).0
                  (find-eq-some (λ _. Unit) (λ (x : Agent). x.id == id) s.ir.agents found
                    (All-always _ (λ _. tt) s.ir.agents)).1 in
              let (is, runs) =
                validate_edges-IsExecutable a (outgoing_edges s id) (ap (outgoing_edges s) named)
                  k in
              (found ∙ ap (λ x. some x) is, runs)
        ]

-- A request that is let through names an agent of the graph that can be executed along the chain that
-- is returned: an external agent with a command-line runtime, from which the chain leads to external
-- agents with such runtimes, each once; or an agent whose model the graph has, with no chain.
pub validate-IsExecutable :
    (s : Snapshot) (agent_id prompt : String) {agent : Agent} {chain : List Edge}
    → validate s agent_id prompt ≡ answer agent chain
    → (agent_of s agent_id ≡ some agent) × IsExecutable s agent chain
unfolding validate
validate-IsExecutable s agent_id prompt h = elim (Bool-cases (is_empty (trim_space agent_id))) [
  | inl e ↦ absurd (refused_not s (rw (e, validate) at h))
  | inr e ↦ elim (Bool-cases (is_empty (trim_space prompt))) [
    | inl f ↦ absurd (refused_not s (rw (e, f, validate) at h))
    | inr f ↦
        validate_agent-IsExecutable s agent_id (agent_of s agent_id) refl (rw (e, f, validate) at h)
  ]
]
