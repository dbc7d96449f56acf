-- ===== src/Executor/Termination.antt =====
-- internal/runs/executor.go: the loop of executableHandoffChain ends.
use nomici_orchestrator.Common.{
  subst, ◌⊎◌, ℕ, zero, suc, ◌≤◌, ◌<◌, String, ◌==◌, eq_iff, eq_refl, ◌≡◌, ◌≢◌, refl, inl, inr, Bool,
  false, not, Option, none, some, List, [], ◌∷◌, arith, any, length, Bool-cases,
}
use nomici_orchestrator.Common.Table
use nomici_orchestrator.Graph.Types.{Runtime, Agent, Edge, Snapshot}
use nomici_orchestrator.Executor.{
  Refusal, Result, kind_external, mode_handoff, Hop, done, refused, to, Walk, edges, stopped,
  exhausted, enter, next_hop, choice, agent_of, prepend, walk, executable_handoff_chain,
  cli_runtime_for_agent, good, bad, outgoing_edges,
}

abbrev pub seen : List String → String → Bool
seen visited x = any (λ id. id == x) visited

-- how many agents have not been visited
abbrev remaining : List String → List Agent → ℕ
remaining visited = Table.affected (λ a. not (seen visited a.id))

remaining-le :
    (visited : List String) (agents : List Agent) → remaining visited agents ≤ length agents
unfolding Table.affected
remaining-le visited [] = omega arith
remaining-le visited (a ∷ agents) = let rest = remaining-le visited agents in ground arith

-- A visit leaves no more agents.
remaining_mono :
    (x : String) (visited : List String) (agents : List Agent)
    → remaining (x ∷ visited) agents ≤ remaining visited agents
unfolding Table.affected
remaining_mono x visited [] = omega arith
remaining_mono x visited (a ∷ agents) = let rest = remaining_mono x visited agents in ground arith

-- A visit of an agent that is there and was not visited leaves fewer.
remaining-lt :
    (visited : List String) (agents : List Agent) (p : Agent → Bool) {next : Agent}
    → Table.find p agents ≡ some next
    → seen visited next.id ≡ false
    → remaining (next.id ∷ visited) agents < remaining visited agents
unfolding Table.find Table.affected
remaining-lt visited [] p e h = absurd (ground arith)
remaining-lt visited (a ∷ agents) p {next} e h = elim (Bool-cases (p a)) [
  | inl t ↦
      let same : a ≡ next = ground arith in
      let rest = remaining_mono next.id visited agents in
      rw (same, h, eq_refl) (omega (arith, rest))
  | inr f ↦
      let rest = remaining-lt visited agents p {next = next} (ground arith) h in
      ground (arith, rest)
]

-- What is so of an edge that the chain takes from an agent, and of the agent that it leads to.
pub record Hops (s : Snapshot) (visited : List String) (current : Agent) (edge : Edge)
    (next : Agent) : Type 0 where
  pub only : outgoing_edges s current.id ≡ edge ∷ []
  pub mode : edge.mode ≡ mode_handoff
  pub found : agent_of s edge.to ≡ some next
  pub fresh : seen visited next.id ≡ false
  pub kind : next.kind ≡ kind_external
  pub runs : (r : Runtime) × (cli_runtime_for_agent s next ≡ good r)

pub Result-cases :
    {A : Type 0} (x : Result A) → ((a : A) × (x ≡ good a)) ⊎ ((e : Refusal) × (x ≡ bad e))
Result-cases (good a) = inl (a, refl)
Result-cases (bad e) = inr (e, refl)

module _ (s : Snapshot) (visited : List String) (current : Agent) where
  enter-to :
      (edge : Edge) (o : Option Agent) {edge' : Edge} {next : Agent}
      → agent_of s edge.to ≡ o
      → outgoing_edges s current.id ≡ edge ∷ []
      → edge.mode ≡ mode_handoff
      → enter s visited edge o ≡ to edge' next
      → Hops s visited current edge' next
  unfolding enter
  enter-to edge none found only mode h = absurd (ground arith)
  enter-to edge (some x) {edge'} {next} found only mode h = elim (Bool-cases (seen visited x.id)) [
    | inl e ↦ absurd (other (rw (e, enter) at h))
    | inr e ↦ elim (Bool-cases (not (x.kind == kind_external))) [
      | inl f ↦ absurd (other (rw (e, f, enter) at h))
      | inr f ↦ elim (Result-cases (cli_runtime_for_agent s x)) [
        | inr (b, g) ↦ absurd (other (rw (e, f, g, enter) at h))
        | inl (r, g) ↦
            let same : to edge x ≡ to edge' next = rw (e, f, g, enter) at h in
            let edge_is : edge ≡ edge' = ground arith in
            let next_is : x ≡ next = ground arith in
            let hop : Hops s visited current edge x = record {
              only = only;
              mode = mode;
              found = found;
              fresh = e;
              kind = (eq_iff x.kind kind_external).0 (ground arith);
              runs = (r, g);
            } in
            subst (λ n. Hops s visited current edge' n) next_is
              (subst (λ d. Hops s visited current d x) edge_is hop)
      ]
    ]
  ]
    where
      other : {r : Refusal} → refused r ≡ to edge' next → ⊥
      other k = ground arith

  pub next_hop-to :
      {edge : Edge} {next : Agent}
      → next_hop s visited current ≡ to edge next
      → Hops s visited current edge next
  unfolding next_hop choice
  next_hop-to {edge} {next} h = go (outgoing_edges s current.id) refl h
    where
      other : {r : Refusal} → refused r ≡ to edge next → ⊥
      other k = ground arith

      go :
          (es : List Edge)
          → outgoing_edges s current.id ≡ es
          → choice s visited current es ≡ to edge next
          → Hops s visited current edge next
      go [] only k = absurd (ground arith)
      go (e ∷ []) only k = elim (Bool-cases (not (e.mode == mode_handoff))) [
        | inl t ↦ absurd (other (rw (t, choice) at k))
        | inr t ↦
            enter-to e (agent_of s e.to) refl only ((eq_iff e.mode mode_handoff).0 (ground arith))
              (rw (t, choice) at k)
      ]
      go (e ∷ f ∷ rest) only k = absurd (ground arith)

-- A walk with more turns than there are agents left to visit comes to an end.
walk-ends :
    (n : ℕ) (s : Snapshot) (visited : List String) (current : Agent)
    → remaining visited s.ir.agents < n
    → walk n s visited current ≢ exhausted
unfolding walk prepend agent_of
walk-ends zero s visited current le h = omega (arith, le)
walk-ends (suc n) s visited current le h =
    go (next_hop s visited current) refl
      (λ next fewer. walk-ends n s (next.id ∷ visited) next fewer) h
  where
    ended : (edge : Edge) (w : Walk) → w ≢ exhausted → prepend edge w ≢ exhausted
    ended edge (edges es) lasts k = ground arith
    ended edge (stopped r) lasts k = ground arith
    ended edge exhausted lasts k = lasts refl

    go :
        (hop : Hop)
        → next_hop s visited current ≡ hop
        → ((next : Agent)
            → remaining (next.id ∷ visited) s.ir.agents < n
            → walk n s (next.id ∷ visited) next ≢ exhausted)
        → (elim hop as (λ x. Walk) [
          | done ↦ edges []
          | refused e ↦ stopped e
          | to edge next ↦ prepend edge (walk n s (next.id ∷ visited) next)
        ])
          ≢ exhausted
    go done e deeper k = ground arith
    go (refused r) e deeper k = ground arith
    go (to edge next) e deeper k =
        let hop = next_hop-to s visited current e in
        let fewer =
          remaining-lt visited s.ir.agents (λ (a : Agent). a.id == edge.to) hop.found hop.fresh in
        ended edge (walk n s (next.id ∷ visited) next) (deeper next (omega (arith, fewer, le))) k

-- The search for a chain of handoffs ends for every graph, whether or not its edges run in a circle:
-- one turn more than there are agents is enough.
pub executable_handoff_chain-ends :
    (s : Snapshot) (start : Agent) → executable_handoff_chain s start ≢ exhausted
unfolding executable_handoff_chain
executable_handoff_chain-ends s start h = elim (Result-cases (cli_runtime_for_agent s start)) [
  | inr (e, b) ↦ never (rw (b, executable_handoff_chain) at h)
  | inl (r, g) ↦
      walk-ends (suc (length s.ir.agents)) s (start.id ∷ []) start
        (let most = remaining-le (start.id ∷ []) s.ir.agents in omega (arith, most))
        (rw (g, executable_handoff_chain) at h)
]
  where
    never : {r : Refusal} → stopped r ≡ exhausted → ⊥
    never k = ground arith
