-- ===== src/Executor.antt =====
-- internal/runs/executor.go: which agent a request starts, and the chain of agents that hand over to one
-- another.
pub mod Termination
pub mod Chain
pub mod Valid
use nomici_orchestrator.Common.{
  ℕ, zero, suc, String, ◌==◌, Bool, not, ◌&&◌, ◌||◌, Option, none, some, List, [], ◌∷◌, ◌++◌,
  if◌then◌else◌, any, length, is_empty, trim_space,
}
use nomici_orchestrator.Common.Table
use nomici_orchestrator.Graph.Types.{Agent, Runtime, Edge, Snapshot}

abbrev pub kind_gateway : String
kind_gateway = "gateway_agent"

abbrev pub kind_model : String
kind_model = "model_agent"

abbrev pub kind_external : String
kind_external = "external_agent"

abbrev pub runtime_cli_agent : String
runtime_cli_agent = "cli_agent"

abbrev pub mode_handoff : String
mode_handoff = "handoff"

-- the errors of the executor, by what they name
pub data Refusal : Type 0 where
  missing : String → Refusal
  not_executable : String → Refusal
  branches : String → Refusal
  not_handoff : String → Refusal
  cycle : String → Refusal
  not_contiguous : String → Refusal
  required : String → Refusal

pub data Result (A : Type 0) : Type 0 where
  good : A → Result A
  bad : Refusal → Result A

unfoldable pub agent_of : Snapshot → String → Option Agent
agent_of s id = Table.find (λ a. a.id == id) s.ir.agents

unfoldable pub cli_runtime_for_agent : Snapshot → Agent → Result Runtime
cli_runtime_for_agent s agent = compiled (Table.find (λ r. r.id == agent.runtime) s.ir.runtimes)
  where
    compiled : Option Runtime → Result Runtime
    compiled none = bad (missing agent.runtime)
    compiled (some r) =
        if r.kind == runtime_cli_agent then good r else bad (not_executable agent.id)

unfoldable pub outgoing_edges : Snapshot → String → List Edge
outgoing_edges s agent_id = Table.select (λ e. e.from == agent_id) s.ir.edges

-- what one turn of the loop of executableHandoffChain finds
pub data Hop : Type 0 where
  done : Hop
  refused : Refusal → Hop
  to : Edge → Agent → Hop

-- the tests on the agent that the edge leads to
unfoldable pub enter : Snapshot → List String → Edge → Option Agent → Hop
enter s visited edge none = refused (missing edge.to)
enter s visited edge (some next) =
    if any (λ id. id == next.id) visited
    then refused (cycle next.id)
    else if not (next.kind == kind_external)
    then refused (not_executable next.id)
    else elim (cli_runtime_for_agent s next) [ good r ↦ to edge next | bad e ↦ refused e ]

-- the choice among the edges that leave an agent
unfoldable pub choice : Snapshot → List String → Agent → List Edge → Hop
choice s visited current [] = done
choice s visited current (edge ∷ []) =
    if not (edge.mode == mode_handoff)
    then refused (not_handoff edge.mode)
    else enter s visited edge (agent_of s edge.to)
choice s visited current (edge ∷ other ∷ rest) = refused (branches current.id)

unfoldable pub next_hop : Snapshot → List String → Agent → Hop
next_hop s visited current = choice s visited current (outgoing_edges s current.id)

-- `exhausted` is where the fuel does not last.
pub data Walk : Type 0 where
  edges : List Edge → Walk
  stopped : Refusal → Walk
  exhausted : Walk

-- the edge in front of the rest of the chain
unfoldable pub prepend : Edge → Walk → Walk
prepend e (edges es) = edges (e ∷ es)
prepend e (stopped r) = stopped r
prepend e exhausted = exhausted

-- the loop, with the identifiers visited so far
unfoldable pub walk : ℕ → Snapshot → List String → Agent → Walk
walk zero s visited current = exhausted
walk (suc n) s visited current = elim (next_hop s visited current) [
  | done ↦ edges []
  | refused e ↦ stopped e
  | to edge next ↦ prepend edge (walk n s (next.id ∷ visited) next)
]

-- One turn more than there are agents is enough.
unfoldable pub executable_handoff_chain : Snapshot → Agent → Walk
executable_handoff_chain s start = elim (cli_runtime_for_agent s start) [
  | bad e ↦ stopped e
  | good r ↦ walk (suc (length s.ir.agents)) s (start.id ∷ []) start
]

-- the loop of handoffChainAgents: the agents and the runtimes from `current` on
unfoldable pub follow : Snapshot → String → List Edge → Result (List (Agent × Runtime))
follow s current [] = good []
follow s current (edge ∷ rest) =
    if not (edge.from == current) then bad (not_contiguous edge.id) else elim (agent_of s edge.to) [
      | none ↦ bad (missing edge.to)
      | some agent ↦ elim (cli_runtime_for_agent s agent) [
        | bad e ↦ bad e
        | good r ↦ elim (follow s agent.id rest) [
          | bad e ↦ bad e
          | good more ↦ good ((agent, r) ∷ more)
        ]
      ]
    ]

unfoldable pub handoff_chain_agents : Snapshot → Agent → List Edge → Result (List (Agent × Runtime))
handoff_chain_agents s start chain = elim (cli_runtime_for_agent s start) [
  | bad e ↦ bad e
  | good r ↦ elim (follow s start.id chain) [ bad e ↦ bad e | good more ↦ good ((start, r) ∷ more) ]
]

-- the tests of Validate on an agent that has outgoing edges; the search is never exhausted
unfoldable pub with_chain : Agent → Walk → Result (Agent × List Edge)
with_chain agent (edges chain) = good (agent, chain)
with_chain agent (stopped r) = bad r
with_chain agent exhausted = bad (not_executable agent.id)

unfoldable pub validate_edges : Snapshot → Agent → List Edge → Result (Agent × List Edge)
validate_edges s agent [] =
    if agent.kind == kind_external
    then elim (cli_runtime_for_agent s agent) [ good r ↦ good (agent, []) | bad e ↦ bad e ]
    else if any (λ m. m.id == agent.model) s.ir.models
    then good (agent, [])
    else bad (missing agent.model)
validate_edges s agent (e ∷ es) =
    if agent.kind == kind_external
    then with_chain agent (executable_handoff_chain s agent)
    else bad (not_executable agent.id)

unfoldable pub validate_agent : Snapshot → String → Option Agent → Result (Agent × List Edge)
validate_agent s agent_id none = bad (missing agent_id)
validate_agent s agent_id (some agent) =
    if not (agent.kind == kind_gateway)
      && not (agent.kind == kind_model)
      && not (agent.kind == kind_external)
    then bad (not_executable agent_id)
    else validate_edges s agent (outgoing_edges s agent_id)

-- Validate, of a request that has a compiled graph, an agent and a prompt
unfoldable pub validate : Snapshot → String → String → Result (Agent × List Edge)
validate s agent_id prompt =
    if is_empty (trim_space agent_id)
    then bad (required "agent_id")
    else if is_empty (trim_space prompt)
    then bad (required "prompt")
    else validate_agent s agent_id (agent_of s agent_id)
