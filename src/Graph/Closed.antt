-- ===== src/Graph/Closed.antt =====
-- internal/graph/compiler.go: that what a compiled graph names is in it.
use nomici_orchestrator.Common.{
  ℕ, suc, String, ◌==◌, eq_iff, ◌≡◌, refl, sym, subst, ap, ◌⊎◌, inl, inr, true, false, some, List,
  [], ◌∷◌, map, arith, All, Bool-cases, has_key, is_empty, trim_space,
}
use nomici_orchestrator.Common.Table
use nomici_orchestrator.Paths.{Host}
use nomici_orchestrator.AgentSpec.Types as Spec
use nomici_orchestrator.AgentSpec.Types.{Spec, LoadedSpec, ValidationError}
use nomici_orchestrator.AgentSpec.Checks.{
  kind_gateway, kind_external, kind_model, runtime_cli_agent, runtime_local_process, blank,
  validate,
}
use nomici_orchestrator.AgentSpec.WellFormed.{
  IsWellFormed, AgentIsWhole, EdgeIsWhole, RuntimeIsWhole, validate-eq-nil,
}
use nomici_orchestrator.Graph.Types.{Model, Runtime, Agent, Edge, Ir, Snapshot}
use nomici_orchestrator.Graph.Compile.{
  Compiled, compiled, invalid, compile, compile_checked, compile_valid, compile_ir, compile_model,
  compile_runtime, compile_agent, compile_edges,
}
use nomici_orchestrator.Store.{World, ok, pure}
use nomici_orchestrator.Store.Inversion.{bind-eq-ok, pure-eq-ok}
use nomici_orchestrator.Executor.{agent_of}

-- A lookup in a compiled map finds what its entry is compiled to, if the specification has the key.
module _ {A B : Type 0} (id : B → String) (f : String × A → B)
    (keeps : (e : String × A) → id (f e) ≡ e.0) (Q : String × A → Type 0) where
  find-map :
      (k : String) (m : List (String × A))
      → All Q m
      → has_key k m ≡ true
      → (e : String × A) × (Table.find (λ x. id x == k) (map f m) ≡ some (f e)) × Q e
  unfolding Table.find
  find-map k [] q h = absurd (ground arith)
  find-map k (e ∷ m) q h = elim (Bool-cases (e.0 == k)) [
    | inl t ↦ (e, rw (keeps e, t) refl, q.0)
    | inr t ↦
        let (e', there, holds) = find-map k m q.1 (ground arith) in
        (e', rw (keeps e, t) there, holds)
  ]

-- the model that an agent names, and the runtime that an external agent names, are in the graph, and
-- the runtime is of a kind that can be run
pub record AgentIsLinked (s : Snapshot) (a : Agent) : Type 0 where
  pub model :
      (a.kind ≡ kind_gateway) ⊎ (a.kind ≡ kind_model)
      → (m : Model) × (Table.find (λ m. m.id == a.model) s.ir.models ≡ some m)
  pub runtime :
      a.kind ≡ kind_external
      → (r : Runtime) × (Table.find (λ r. r.id == a.runtime) s.ir.runtimes ≡ some r)
        × ((r.kind ≡ runtime_cli_agent) ⊎ (r.kind ≡ runtime_local_process))

pub record EdgeIsLinked (s : Snapshot) (e : Edge) : Type 0 where
  pub from : (a : Agent) × (agent_of s e.from ≡ some a)
  pub to : (a : Agent) × (agent_of s e.to ≡ some a)

-- What the agents and the edges of a graph name is in the graph.
pub record IsClosed (s : Snapshot) : Type 0 where
  pub agents : All (AgentIsLinked s) s.ir.agents
  pub edges : All (EdgeIsLinked s) s.ir.edges

always : {A : Type 0} (m : List A) → All (λ e. Unit) m
always [] = tt
always (e ∷ m) = (tt, always m)

All-map :
    {A B : Type 0} (P : A → Type 0) (Q : B → Type 0) (f : A → B)
    → ((a : A) → P a → Q (f a))
    → (xs : List A) → All P xs
    → All Q (map f xs)
All-map P Q f k [] h = tt
All-map P Q f k (x ∷ xs) h = (k x h.0, All-map P Q f k xs h.1)

kind_of :
    (e : String × Spec.Runtime)
    → RuntimeIsWhole e
    → (e.1.kind ≡ runtime_cli_agent) ⊎ (e.1.kind ≡ runtime_local_process)
kind_of e h = elim h [ inl (k, _) ↦ inl k | inr (k, _) ↦ inr k ]

blank-false : (s : String) → blank s ≡ false → s == "" ≡ false
unfolding trim_space is_empty
blank-false s h = elim (Bool-cases (s == "")) [
  | inl e ↦ absurd (no (subst (λ x. blank x ≡ false) ((eq_iff s "").0 e) h))
  | inr e ↦ e
]
  where
    no : blank "" ≡ false → ⊥
    no k = ground arith

module _ (loaded : LoadedSpec) (s : Snapshot) (made : s.ir ≡ compile_ir loaded loaded.spec)
    (whole : IsWellFormed loaded.spec) where
  agent_named :
      (id : String) → has_key id loaded.spec.agents ≡ true → (a : Agent) × (agent_of s id ≡ some a)
  unfolding compile_ir compile_agent agent_of
  agent_named id h =
      let (e, there, _) =
        find-map (λ (a : Agent). a.id) (compile_agent loaded) (λ e. refl) (λ e. Unit) id
          loaded.spec.agents (always loaded.spec.agents) h in
      (compile_agent loaded e, rw made there)

  agent-IsLinked :
      (e : String × Spec.Agent)
      → AgentIsWhole loaded.spec e
      → AgentIsLinked s (compile_agent loaded e)
  unfolding compile_ir compile_agent compile_model compile_runtime
  agent-IsLinked e h = record {
    model = λ k.
        let (m, there, _) =
          find-map (λ (m : Model). m.id) (compile_model loaded) (λ e. refl) (λ e. Unit) e.1.model
            loaded.spec.models (always loaded.spec.models)
            (h.model (blank-false e.1.model (h.wants_model k))) in
        (compile_model loaded m, rw made there);
    runtime = λ k.
        let (r, there, q) =
          find-map (λ (r : Runtime). r.id) (compile_runtime loaded) (λ e. refl) RuntimeIsWhole
            e.1.runtime loaded.spec.runtimes whole.runtimes (h.runtime k).1 in
        (compile_runtime loaded r, rw made there, kind_of r q);
  }

  edges-IsLinked :
      (index : ℕ) (edges : List Spec.Edge)
      → All (EdgeIsWhole loaded.spec) edges
      → All (EdgeIsLinked s) (compile_edges loaded index edges)
  unfolding compile_edges
  edges-IsLinked index [] h = tt
  edges-IsLinked index (e ∷ es) h = (
    record { from = agent_named e.from h.0.from.1; to = agent_named e.to h.0.to.1 },
    edges-IsLinked (suc index) es h.1,
  )

  ir-IsClosed : IsClosed s
  unfolding compile_ir
  ir-IsClosed = record {
    agents =
        subst (λ (ir : Ir). All (AgentIsLinked s) ir.agents) (sym made)
          (All-map (AgentIsWhole loaded.spec) (AgentIsLinked s) (compile_agent loaded)
            agent-IsLinked loaded.spec.agents whole.agents);
    edges =
        subst (λ (ir : Ir). All (EdgeIsLinked s) ir.edges) (sym made)
          (edges-IsLinked 0 loaded.spec.edges whole.edges);
  }

compile_valid-ir :
    (host : Host) (loaded : LoadedSpec) (w : World) {s : Snapshot} {w' : World}
    → compile_valid host loaded w ≡ ok (compiled s) w'
    → s.ir ≡ compile_ir loaded loaded.spec
unfolding compile_valid
compile_valid-ir host loaded w {s} h =
    let (id, w₁, _, h₁) = bind-eq-ok _ _ w h in
    let (at, w₂, _, h₂) = bind-eq-ok _ _ w₁ h₁ in ap ir_of (pure-eq-ok _ w₂ h₂).0
  where
    ir_of : Compiled → Ir
    ir_of (compiled t) = t.ir
    ir_of (invalid errors) = compile_ir loaded loaded.spec

invalid-ne-compiled :
    (errors : List ValidationError) (w : World) {s : Snapshot} {w' : World}
    → pure (invalid errors) w ≡ ok (compiled s) w'
    → ⊥
unfolding pure
invalid-ne-compiled errors w h = ground arith

-- Where Compile returns a graph, the specification is well formed, and what the graph names is in it:
-- the model of an agent that runs on a model, the runtime of an external agent, of a kind that can be
-- run, and both agents of each edge, as the executor looks them up.
pub compile-IsClosed :
    (host : Host) (loaded : LoadedSpec) (w : World) {s : Snapshot} {w' : World}
    → compile host (some loaded) w ≡ ok (compiled s) w'
    → IsWellFormed loaded.spec × IsClosed s
unfolding compile compile_checked
compile-IsClosed host loaded w {s} {w'} h = go (validate (some loaded)) refl h
  where
    go :
        (errors : List ValidationError)
        → validate (some loaded) ≡ errors
        → compile_checked host (some loaded) errors w ≡ ok (compiled s) w'
        → IsWellFormed loaded.spec × IsClosed s
    go [] e k =
        let whole = (validate-eq-nil loaded).0 e in
        (whole, ir-IsClosed loaded s (compile_valid-ir host loaded w k) whole)
    go (x ∷ xs) e k = absurd (invalid-ne-compiled (x ∷ xs) w k)
