-- ===== src/Executor/Chain.antt =====
-- internal/runs/executor.go: what a chain of handoffs is.
use nomici_orchestrator.Common.{
  ◌≢◌, ℕ, zero, suc, String, ◌==◌, eq_iff, ◌≡◌, refl, sym, subst, inl, inr, true, not, Option, none,
  some, List, [], ◌∷◌, arith, All, length, Bool-cases,
}
use nomici_orchestrator.Common.Table.Selecting.{select-All}
use nomici_orchestrator.Graph.Types.{Agent, Runtime, Edge, Snapshot}
use nomici_orchestrator.Executor.{
  Refusal, Hop, done, refused, to, Walk, edges, stopped, exhausted, next_hop, agent_of, prepend,
  walk, executable_handoff_chain, cli_runtime_for_agent, good, outgoing_edges, follow,
  handoff_chain_agents, kind_external, mode_handoff, enter, choice,
}
use nomici_orchestrator.Executor.Termination.{Hops, next_hop-to, seen, Result-cases}

-- `path` is where a chain leads from `current`: each agent is an external one that a command-line runtime
-- runs, and none of them is in `visited` or comes twice; no edge leaves the last one.
pub data PathFrom (s : Snapshot)
    : List String → Agent → List Edge → List (Agent × Runtime) → Type 0 where
  ends :
      (visited : List String) (current : Agent)
      → outgoing_edges s current.id ≡ []
      → PathFrom s visited current [] []
  goes :
      (visited : List String) (current : Agent) (edge : Edge) (next : Agent) (r : Runtime)
      (chain : List Edge) (path : List (Agent × Runtime))
      → Hops s visited current edge next
      → cli_runtime_for_agent s next ≡ good r
      → PathFrom s (next.id ∷ visited) next chain path
      → PathFrom s visited current (edge ∷ chain) ((next, r) ∷ path)

source_is :
    (s : Snapshot) (current : String) (edge : Edge)
    → outgoing_edges s current ≡ edge ∷ []
    → edge.from ≡ current
unfolding outgoing_edges
source_is s current edge only =
    (eq_iff edge.from current).0
      (subst (λ es. All (λ (e : Edge). e.from == current ≡ true) es) only
        (select-All (λ (e : Edge). e.from == current ≡ true) (λ e. e.from == current) s.ir.edges
          (λ e t. t))).0

-- what a walk has found
abbrev Found : Snapshot → List String → Agent → List Edge → Type 0
Found s visited current chain =
    (path : List (Agent × Runtime)) × PathFrom s visited current chain path
    × (follow s current.id chain ≡ good path)

module _ (s : Snapshot) (visited : List String) (current : Agent) where
  Found-nil : outgoing_edges s current.id ≡ [] → Found s visited current []
  unfolding follow
  Found-nil h = ([], ends visited current h, refl)

  Found-cons :
      (edge : Edge) (next : Agent) (chain : List Edge)
      → Hops s visited current edge next
      → Found s (next.id ∷ visited) next chain
      → Found s visited current (edge ∷ chain)
  unfolding follow
  Found-cons edge next chain hop (path, way, followed) =
      let (r, runs) = hop.runs in
      let from : edge.from == current.id ≡ true =
        (eq_iff edge.from current.id).1 (source_is s current.id edge hop.only) in
      (
        (next, r) ∷ path,
        goes visited current edge next r chain path hop runs way,
        rw (from, hop.found, runs, followed) refl,
      )

prepend-edges :
    (edge : Edge) (w : Walk) {chain : List Edge}
    → prepend edge w ≡ edges chain
    → (rest : List Edge) × (w ≡ edges rest) × (chain ≡ edge ∷ rest)
unfolding prepend
prepend-edges edge (edges es) h = (es, refl, ground arith)
prepend-edges edge (stopped r) h = absurd (ground arith)
prepend-edges edge exhausted h = absurd (ground arith)

enter-not_done :
    (s : Snapshot) (visited : List String) (edge : Edge) (o : Option Agent)
    → enter s visited edge o ≢ done
unfolding enter
enter-not_done s visited edge none h = ground arith
enter-not_done s visited edge (some x) h = elim (Bool-cases (seen visited x.id)) [
  | inl e ↦ other (rw (e, enter) at h)
  | inr e ↦ elim (Bool-cases (not (x.kind == kind_external))) [
    | inl f ↦ other (rw (e, f, enter) at h)
    | inr f ↦ elim (Result-cases (cli_runtime_for_agent s x)) [
      | inr (b, g) ↦ other (rw (e, f, g, enter) at h)
      | inl (r, g) ↦ hops (rw (e, f, g, enter) at h)
    ]
  ]
]
  where
    other : {r : Refusal} → refused r ≢ done
    other k = ground arith

    hops : to edge x ≢ done
    hops k = ground arith

next_hop-done :
    (s : Snapshot) (visited : List String) (current : Agent)
    → next_hop s visited current ≡ done
    → outgoing_edges s current.id ≡ []
unfolding next_hop choice
next_hop-done s visited current h = go (outgoing_edges s current.id) refl h
  where
    other : {r : Refusal} → refused r ≢ done
    other k = ground arith

    go :
        (es : List Edge)
        → outgoing_edges s current.id ≡ es
        → choice s visited current es ≡ done
        → outgoing_edges s current.id ≡ []
    go [] only k = only
    go (e ∷ []) only k = elim (Bool-cases (not (e.mode == mode_handoff))) [
      | inl t ↦ absurd (other (rw (t, choice) at k))
      | inr t ↦ absurd (enter-not_done s visited e (agent_of s e.to) (rw (t, choice) at k))
    ]
    go (e ∷ f ∷ rest) only k = absurd (ground arith)

walk-Found :
    (n : ℕ) (s : Snapshot) (visited : List String) (current : Agent) (chain : List Edge)
    → walk n s visited current ≡ edges chain
    → Found s visited current chain
unfolding walk
walk-Found zero s visited current chain h = absurd (ground arith)
walk-Found (suc n) s visited current chain h =
    go (next_hop s visited current) refl (λ next rest. walk-Found n s (next.id ∷ visited) next rest)
      h
  where
    go :
        (hop : Hop)
        → next_hop s visited current ≡ hop
        → ((next : Agent) (rest : List Edge)
            → walk n s (next.id ∷ visited) next ≡ edges rest
            → Found s (next.id ∷ visited) next rest)
        → (elim hop as (λ x. Walk) [
          | done ↦ edges []
          | refused e ↦ stopped e
          | to edge next ↦ prepend edge (walk n s (next.id ∷ visited) next)
        ])
          ≡ edges chain
        → Found s visited current chain
    go done e deeper k =
        let none_left : [] ≡ chain = ground arith in
        subst (Found s visited current) none_left
          (Found-nil s visited current (next_hop-done s visited current e))
    go (refused r) e deeper k = absurd (ground arith)
    go (to edge next) e deeper k =
        let (rest, found, is) = prepend-edges edge (walk n s (next.id ∷ visited) next) k in
        subst (Found s visited current) (sym is) (
          Found-cons s visited current edge next rest (next_hop-to s visited current e)
            (deeper next rest found))

handoff_chain_agents-good :
    (s : Snapshot) (start : Agent) (chain : List Edge) {r : Runtime} {path : List (Agent × Runtime)}
    → cli_runtime_for_agent s start ≡ good r
    → follow s start.id chain ≡ good path
    → handoff_chain_agents s start chain ≡ good ((start, r) ∷ path)
unfolding handoff_chain_agents
handoff_chain_agents-good s start chain g followed = rw (g, followed, handoff_chain_agents) refl

-- Where the search finds a chain of handoffs, the chain can be followed: handoffChainAgents succeeds on
-- it, and gives the start with its runtime and then the agents of the chain, in order. Each of them is
-- an external agent with a command-line runtime, is handed over to by the only edge that leaves the
-- agent before it, and comes once; no edge leaves the last one.
pub executable_handoff_chain-PathFrom :
    (s : Snapshot) (start : Agent) (chain : List Edge)
    → executable_handoff_chain s start ≡ edges chain
    → (r : Runtime) × (path : List (Agent × Runtime)) × (handoff_chain_agents s start chain
        ≡ good ((start, r) ∷ path))
      × (cli_runtime_for_agent s start ≡ good r)
      × PathFrom s (start.id ∷ []) start chain path
unfolding executable_handoff_chain
executable_handoff_chain-PathFrom s start chain h =
    elim (Result-cases (cli_runtime_for_agent s start)) [
      | inr (e, b) ↦ absurd (never (rw (b, executable_handoff_chain) at h))
      | inl (r, g) ↦
          let (path, way, followed) =
            walk-Found (suc (length s.ir.agents)) s (start.id ∷ []) start chain
              (rw (g, executable_handoff_chain) at h) in
          (r, path, handoff_chain_agents-good s start chain g followed, g, way)
    ]
  where
    never : {r : Refusal} → stopped r ≡ edges chain → ⊥
    never k = ground arith
