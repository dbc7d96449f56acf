-- ===== src/Scenarios/Executor.antt =====
-- internal/runs/executor.go on concrete graphs.
use nomici_orchestrator.Common.{◌≡◌, ◌≢◌, refl, some, List, [], ◌∷◌, trim_space, is_empty}
use nomici_orchestrator.Common.Table
use nomici_orchestrator.Graph.Types.{Agent, Edge, Runtime, Snapshot}
use nomici_orchestrator.Scenarios.Base.{graph_agent, graph_edge, graph_runtime, graph_snapshot}
use nomici_orchestrator.Executor.{
  agent_of, edges, exhausted, executable_handoff_chain, handoff_chain_agents, good, kind_external,
  mode_handoff, runtime_cli_agent, cli_runtime_for_agent, outgoing_edges, walk, next_hop, choice,
  enter, prepend, validate, validate_agent, validate_edges, with_chain,
}
use nomici_orchestrator.Executor.Termination.{executable_handoff_chain-ends}
use nomici_orchestrator.Executor.Chain.{PathFrom, executable_handoff_chain-PathFrom}
use nomici_orchestrator.Executor.Valid.{IsExecutable, answer, validate-IsExecutable}

abbrev planner : Agent
planner = graph_agent "planner" kind_external "" "cli"

abbrev coder : Agent
coder = graph_agent "coder" kind_external "" "cli"

abbrev hand_over : Edge
hand_over = graph_edge "e1" "planner" "coder" mode_handoff

abbrev hand_back : Edge
hand_back = graph_edge "e2" "coder" "planner" mode_handoff

abbrev line : Snapshot
line =
    graph_snapshot (planner ∷ coder ∷ []) (graph_runtime "cli" runtime_cli_agent ∷ []) []
      (hand_over ∷ [])

-- a graph that runs in a circle
abbrev circle : Snapshot
circle = record line { ir = record line.ir { edges = hand_over ∷ hand_back ∷ [] } }

executable_handoff_chain-ends_example : executable_handoff_chain circle planner ≢ exhausted
executable_handoff_chain-ends_example = executable_handoff_chain-ends circle planner

line_chain : executable_handoff_chain line planner ≡ edges (hand_over ∷ [])
unfolding executable_handoff_chain cli_runtime_for_agent walk next_hop choice enter agent_of
    outgoing_edges Table.find Table.select prepend
line_chain = refl

executable_handoff_chain-PathFrom_example :
    (r : Runtime) × (path : List (Agent × Runtime)) × (handoff_chain_agents line planner
        (hand_over ∷ [])
      ≡ good ((planner, r) ∷ path))
    × (cli_runtime_for_agent line planner ≡ good r)
    × PathFrom line ("planner" ∷ []) planner (hand_over ∷ []) path
executable_handoff_chain-PathFrom_example =
    executable_handoff_chain-PathFrom line planner (hand_over ∷ []) line_chain

line_valid : validate line "planner" "do it" ≡ answer planner (hand_over ∷ [])
unfolding validate validate_agent validate_edges with_chain trim_space is_empty
    executable_handoff_chain cli_runtime_for_agent walk next_hop choice enter agent_of
    outgoing_edges Table.find Table.select prepend
line_valid = refl

validate-IsExecutable_example :
    (agent_of line "planner" ≡ some planner) × IsExecutable line planner (hand_over ∷ [])
validate-IsExecutable_example = validate-IsExecutable line "planner" "do it" line_valid
