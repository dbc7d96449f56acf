-- ===== src/Orchestration/Match.antt =====
-- internal/orchestration/router.go: MatchRoles.
use nomici_orchestrator.Common.{
  ℕ, suc, ◌+◌, String, ◌==◌, Bool, true, false, ◌&&◌, ◌||◌, not, Option, none, some, List, [], ◌∷◌,
  ◌++◌, any, codes, to_lower, contains, leb, lookup, has_key, assign, if◌then◌else◌, ◌^+◌,
}
use nomici_orchestrator.Common.Table
use nomici_orchestrator.SharedContext.Redaction.{blank}
use nomici_orchestrator.Graph.Types as Graph
use nomici_orchestrator.Orchestration.Types.{
  RouteDecision, PackRole, Manifest, RoleSelection, SkippedRole, MatchResult,
}
use nomici_orchestrator.Orchestration.Words.{
  wants_plan, wants_research, wants_fresh_info, wants_implementation,
}
use nomici_orchestrator.Orchestration.Route.{has_text, has_agent, unique}

unfoldable pub role_has : PackRole → String → Bool
unfolding to_lower contains
role_has role text = contains (codes text) (
    to_lower (
      codes (
        role.id ^+ " " ^+ role.purpose ^+ " " ^+ role.output_contract.kind ^+ " "
        ^+ role.output_contract.description)))

-- the roles of the manifest that are agents of the graph, by their identifiers
unfoldable pub available_from :
    Graph.Snapshot → List PackRole → List (String × PackRole) → List (String × PackRole)
available_from s [] found = found
available_from s (r ∷ rs) found =
    available_from s rs (if has_agent s r.id then assign r.id r found else found)

unfoldable pub available_roles : Graph.Snapshot → List PackRole → List (String × PackRole)
unfolding available_from
available_roles s roles = available_from s roles []

kept_ids : List (String × PackRole) → List String → List String → List String
kept_ids available [] result = result
kept_ids available (id ∷ ids) result =
    kept_ids available ids
      (if has_key id available && not (has_text result id) then result ++ id ∷ [] else result)

unfoldable pub role_ids_from_decision : List String → List (String × PackRole) → List String
unfolding kept_ids
role_ids_from_decision ids available = kept_ids available ids []

-- appendRole of defaultRoleIDs
unfoldable pub append_role :
    List (String × PackRole) → (PackRole → Bool) → List PackRole → List String → List String
append_role available predicate [] ids = ids
append_role available predicate (r ∷ rs) ids =
    if has_key r.id available && predicate r && not (has_text ids r.id)
    then ids ++ r.id ∷ []
    else append_role available predicate rs ids

first_available : List (String × PackRole) → List PackRole → List String
first_available available [] = []
first_available available (r ∷ rs) =
    if has_key r.id available then r.id ∷ [] else first_available available rs

abbrev gathers : PackRole → Bool
gathers r =
    has_text r.required_skills "research"
    || has_text r.required_tools "read_project"
    || has_text r.required_tools "search"
    || has_text r.required_tools "fetch"

abbrev pub no_texts : List String → Bool
no_texts [] = true
no_texts (s ∷ rest) = false

unfoldable pub default_role_ids : Manifest → List (String × PackRole) → RouteDecision → List String
unfolding append_role first_available to_lower
default_role_ids manifest available d =
    let lower = to_lower (codes d.goal) in
    let add = λ (wanted : Bool) (predicate : PackRole → Bool) (ids : List String).
      if wanted then append_role available predicate manifest.roles ids else ids in
    let ids =
      add true (λ r. role_has r "report" || has_text r.required_skills "reporting")
        (add (wants_implementation lower)
          (λ r.
            contains (codes "code") (to_lower (codes r.id))
            || has_text r.required_skills "coding"
            || has_text r.required_tools "write_project")
          (add (wants_research lower || wants_fresh_info lower)
            (λ r. role_has r "research" || gathers r)
            (add true (λ r. role_has r "plan" || has_text r.required_skills "planning")
              (add true (λ r. has_text manifest.entrypoints r.id) [])))) in
    if no_texts ids then first_available available manifest.roles else ids

unfoldable pub role_reason : PackRole → RouteDecision → String
role_reason r d =
    if has_text d.selected_roles r.id
    then "Explicitly selected by route decision."
    else if has_text r.required_tools "write_project" || has_text r.required_skills "coding"
    then "Selected because the request needs implementation or verification."
    else if has_text r.required_skills "research" || has_text r.required_tools "read_project"
    then "Selected because the request needs project or external facts."
    else if role_has r "plan"
    then "Selected to create a reviewable plan."
    else if role_has r "report"
    then "Selected to produce the final report."
    else "Selected as part of the entrypoint role flow."

abbrev points : Bool → ℕ → ℕ
points b n = if b then n else 0

-- roleScore, without the rounding of float64
unfoldable pub role_score : PackRole → RouteDecision → ℕ
unfolding to_lower
role_score r d =
    let lower = to_lower (codes d.goal) in
    let score =
      50
      + points (role_has r "plan" && wants_plan lower) 20
      + points (gathers r && (wants_research lower || wants_fresh_info lower)) 25
      + points
          ((has_text r.required_skills "coding" || has_text r.required_tools "write_project")
            && wants_implementation lower)
          30
      + points (role_has r "report") 10 in
    if leb score 100 then score else 100

abbrev agent_of : Graph.Snapshot → String → Option Graph.Agent
agent_of s id = Table.find (λ a. a.id == id) s.ir.agents

-- what is selected of a role that is available
unfoldable pub selection : Graph.Snapshot → RouteDecision → ℕ → String → PackRole → RoleSelection
unfolding Table.find
selection s d index id r =
    let agent = agent_of s id in
    record {
      agent_id = id;
      role_id = id;
      sequence = suc index;
      purpose = elim agent [
        | none ↦ r.purpose
        | some a ↦ if blank a.role then r.purpose else a.role
      ];
      selection_reason = role_reason r d;
      match_score = role_score r d;
      required_tools = unique (r.required_tools ++ elim agent [ none ↦ [] | some a ↦ a.tools ]);
      required_skills = unique (r.required_skills ++ elim agent [ none ↦ [] | some a ↦ a.skills ]);
      output_contract = r.output_contract;
    }

-- the loop over the selected identifiers, with the ones that are selected already; the result holds
-- what is selected and the tools that are needed
unfoldable pub select_roles :
    Graph.Snapshot
    → RouteDecision
    → List (String × PackRole)
    → ℕ
    → List String
    → List String
    → List RoleSelection
    → List String
    → List RoleSelection × List String
unfolding selection
select_roles s d available index [] taken chosen tools = (chosen, tools)
select_roles s d available index (id ∷ ids) taken chosen tools =
    let found = if has_text taken id then none else lookup id available in
    select_roles s d available (suc index) ids (elim found [ none ↦ taken | some r ↦ id ∷ taken ])
      (elim found [ none ↦ chosen | some r ↦ chosen ++ selection s d index id r ∷ [] ])
      (elim found [
        | none ↦ tools
        | some r ↦ unique (tools ++ (selection s d index id r).required_tools)
      ])

abbrev pub is_chosen : List RoleSelection → String → Bool
is_chosen chosen id = any (λ (c : RoleSelection). c.role_id == id) chosen

unfoldable pub skipped_of :
    List (String × PackRole) → List RoleSelection → List PackRole → List SkippedRole
skipped_of available chosen [] = []
skipped_of available chosen (r ∷ rs) =
    let rest = skipped_of available chosen rs in
    if has_key r.id available && not (is_chosen chosen r.id)
    then record { role_id = r.id; reason = "Not required by this route decision." } ∷ rest
    else rest

unfoldable pub selected_ids : Manifest → List (String × PackRole) → RouteDecision → List String
selected_ids manifest available d =
    let ids = role_ids_from_decision d.selected_roles available in
    if no_texts ids then default_role_ids manifest available d else ids

-- the result where there is nothing to select from
unfoldable pub unmatched : String → RouteDecision → MatchResult
unmatched start_agent_id d = record {
  entrypoint = start_agent_id;
  roles = [];
  skipped_roles = [];
  required_tools = unique d.required_tools;
  needs_review = d.needs_plan_review;
  selection_reason = d.rationale;
}

-- MatchRoles in a graph, past its early return
unfoldable pub matched : Manifest → Graph.Snapshot → String → RouteDecision → MatchResult
unfolding available_roles selected_ids select_roles skipped_of unmatched
matched manifest s start_agent_id d =
    let available = available_roles s manifest.roles in
    let (chosen, tools) =
      select_roles s d available 0 (selected_ids manifest available d) [] []
        (unique d.required_tools) in
    record (unmatched start_agent_id d) {
      roles = chosen;
      skipped_roles = skipped_of available chosen manifest.roles;
      required_tools = unique tools;
    }

abbrev pub no_roles : List PackRole → Bool
no_roles [] = true
no_roles (r ∷ rs) = false

unfoldable pub match_roles : Manifest → Option Graph.Snapshot → String → RouteDecision → MatchResult
match_roles manifest none start_agent_id d = unmatched start_agent_id d
match_roles manifest (some s) start_agent_id d =
    if no_roles manifest.roles || not (has_text manifest.entrypoints start_agent_id)
    then unmatched start_agent_id d
    else matched manifest s start_agent_id d
