-- ===== src/Orchestration/Reviewed.antt =====
-- internal/orchestration/router.go Route: when a plan is to be reviewed.
use nomici_orchestrator.Common.{
  ℕ, String, ◌==◌, ◌≡◌, refl, sym, ◌∙◌, subst, Bool, true, false, not, ◌&&◌, ◌||◌, Option, List, [],
  arith, All, is_empty, trim_space, codes, to_lower, Bool-cases, inl, inr,
}
use nomici_orchestrator.Graph.Types as Graph
use nomici_orchestrator.SharedContext.Redaction.{blank}
use nomici_orchestrator.Orchestration.Types.{RouteDecision, mode_workspace_run, valid_route_mode}
use nomici_orchestrator.Orchestration.Words.{
  wants_implementation, wants_mutation, is_direct_query, is_casual_chat, is_ambiguous,
  has_workspace_intent,
}
use nomici_orchestrator.Orchestration.Route.{
  has_text, wanted_tools, unique, workspace_route, route_words, initial_route, route,
}
use nomici_orchestrator.Orchestration.Unique.{
  IsClean, unique-IsClean, has_trimmed, unique-Distinct_members,
}

abbrev pub lower_goal : RouteDecision → List ℕ
lower_goal d = to_lower (codes d.goal)

-- A plan is to be reviewed exactly if it is a workspace run whose words want an implementation or a
-- mutation, and the risk is then high. A route that needs a tool is a workspace run, and one that may
-- write or run checks needs a review. No tool has an empty name or one with
-- blanks around it, and the mode is one of the three.
pub record IsGuarded (lower : List ℕ) (d : RouteDecision) : Type 0 where
  pub reviewed :
      d.needs_plan_review
      ≡ (d.mode == mode_workspace_run && (wants_implementation lower || wants_mutation lower))
  pub risky : d.needs_plan_review ≡ true → d.risk ≡ "high"
  pub writes : has_text d.required_tools "write_project" ≡ true → d.needs_plan_review ≡ true
  pub checks : has_text d.required_tools "run_checks" ≡ true → d.needs_plan_review ≡ true
  pub replies : d.mode == mode_workspace_run ≡ false → d.required_tools ≡ []
  pub clean : All IsClean d.required_tools
  pub moded : valid_route_mode d.mode ≡ true

-- a decision that nothing was added to
record IsInitial (d : RouteDecision) : Type 0 where
  mode : d.mode ≡ mode_workspace_run
  tools : d.required_tools ≡ []
  review : d.needs_plan_review ≡ false

in_unique :
    (v : String) (vs : List String)
    → has_text (unique vs) v ≡ (not (is_empty v) && has_trimmed vs v)
in_unique v vs = (unique-Distinct_members vs).1 v

write_project-wanted : (a b c : Bool) → has_trimmed (wanted_tools a b c) "write_project" ≡ c
unfolding trim_space
write_project-wanted a b c = by_tools a b c
  where
    by_tools : (a b c : Bool) → has_trimmed (wanted_tools a b c) "write_project" ≡ c
    by_tools true true true = refl
    by_tools true true false = refl
    by_tools true false true = refl
    by_tools true false false = refl
    by_tools false true true = refl
    by_tools false true false = refl
    by_tools false false true = refl
    by_tools false false false = refl

run_checks-wanted : (a b c : Bool) → has_trimmed (wanted_tools a b c) "run_checks" ≡ c
unfolding trim_space
run_checks-wanted true true true = refl
run_checks-wanted true true false = refl
run_checks-wanted true false true = refl
run_checks-wanted true false false = refl
run_checks-wanted false true true = refl
run_checks-wanted false true false = refl
run_checks-wanted false false true = refl
run_checks-wanted false false false = refl

-- a tool that only an implementation wants
wanted_by_implementation :
    (tool : String) (a b c m : Bool)
    → has_trimmed (wanted_tools a b c) tool ≡ c
    → has_text (unique (wanted_tools a b c)) tool ≡ true
    → c || m ≡ true
wanted_by_implementation tool a b c m only k =
    let both : (not (is_empty tool) && has_trimmed (wanted_tools a b c) tool) ≡ true =
      sym (in_unique tool (wanted_tools a b c)) ∙ k in
    ground arith

workspace_route-IsGuarded :
    (lower : List ℕ) (d : RouteDecision) → IsInitial d → IsGuarded lower (workspace_route lower d)
unfolding workspace_route
workspace_route-IsGuarded lower d h = record {
  reviewed = rw h.mode refl;
  risky = λ k. rw k refl;
  writes = λ k.
      wanted_by_implementation "write_project" _ _ _ (wants_mutation lower)
        (write_project-wanted _ _ _) k;
  checks = λ k.
      wanted_by_implementation "run_checks" _ _ _ (wants_mutation lower) (run_checks-wanted _ _ _)
        k;
  replies = λ k. let e : d.mode == mode_workspace_run ≡ true = rw h.mode refl in absurd (cc);
  clean = unique-IsClean _;
  moded = rw h.mode refl;
}

-- a decision that is answered in the chat
answered-IsGuarded :
    (lower : List ℕ) (d : RouteDecision)
    → d.mode == mode_workspace_run ≡ false
    → valid_route_mode d.mode ≡ true
    → d.required_tools ≡ []
    → d.needs_plan_review ≡ false
    → IsGuarded lower d
answered-IsGuarded lower d mode valid tools review = record {
  reviewed = rw (mode, review) refl;
  risky = λ k. absurd (ground arith);
  writes = λ k.
      let none_left : false ≡ true = subst (λ t. has_text t "write_project" ≡ true) tools k in
      absurd (cc);
  checks = λ k.
      let none_left : false ≡ true = subst (λ t. has_text t "run_checks" ≡ true) tools k in
      absurd (cc);
  replies = λ k. tools;
  clean = rw tools tt;
  moded = valid;
}

route_words-IsGuarded :
    (lower : List ℕ) (d : RouteDecision) → IsInitial d → IsGuarded lower (route_words lower d)
unfolding route_words
route_words-IsGuarded lower d h = elim (Bool-cases (blank d.goal)) [
  | inl e ↦ rw e (answered-IsGuarded lower _ refl refl h.tools h.review)
  | inr e ↦
      rw e (elim (Bool-cases (not (not (is_empty d.manual_agent_id)) && is_direct_query lower)) [
        | inl e₁ ↦ rw e₁ (answered-IsGuarded lower _ refl refl h.tools h.review)
        | inr e₁ ↦
            rw e₁
              (elim (Bool-cases (not (not (is_empty d.manual_agent_id)) && is_casual_chat lower)) [
                | inl e₂ ↦ rw e₂ (answered-IsGuarded lower _ refl refl h.tools h.review)
                | inr e₂ ↦
                    rw e₂
                      (elim (Bool-cases
                        (not (not (is_empty d.manual_agent_id)) && is_ambiguous lower)) [
                          | inl e₃ ↦ rw e₃ (answered-IsGuarded lower _ refl refl h.tools h.review)
                          | inr e₃ ↦
                              rw e₃
                                (elim (Bool-cases (
                                  not (not (is_empty d.manual_agent_id))
                                  && not (has_workspace_intent lower))) [
                                    | inl e₄ ↦
                                        rw e₄
                                          (answered-IsGuarded lower _ refl refl h.tools h.review)
                                    | inr e₄ ↦ rw e₄ (workspace_route-IsGuarded lower d h)
                                  ])
                        ])
              ])
      ])
]

-- Route keeps the goal that it starts with.
route_words-goal : (lower : List ℕ) (d : RouteDecision) → (route_words lower d).goal ≡ d.goal
unfolding route_words workspace_route
route_words-goal lower d = ground arith

initial_route-IsInitial :
    (prompt manual_agent_id : String) (snapshot : Option Graph.Snapshot)
    → IsInitial (initial_route prompt manual_agent_id snapshot)
unfolding initial_route
initial_route-IsInitial prompt manual_agent_id snapshot = record {
  mode = refl;
  tools = refl;
  review = refl;
}

-- Of every prompt, Route decides what is guarded: a plan is to be reviewed exactly if the prompt goes
-- to a workspace run and its goal, in lower case, wants an implementation or a mutation. The risk is
-- then high. A run that may use write_project or run_checks is to be reviewed, and what is answered
-- in the chat needs no tool. No tool has an empty name or one
-- with blanks around it, and the mode is one of the three.
pub route-IsGuarded :
    (prompt manual_agent_id : String) (snapshot : Option Graph.Snapshot)
    → IsGuarded
        (lower_goal (route prompt manual_agent_id snapshot))
        (route prompt manual_agent_id snapshot)
unfolding route
route-IsGuarded prompt manual_agent_id snapshot =
    let d = initial_route prompt manual_agent_id snapshot in
    rw (route_words-goal (to_lower (codes d.goal)) d) (
      route_words-IsGuarded (to_lower (codes d.goal)) d
        (initial_route-IsInitial prompt manual_agent_id snapshot))
