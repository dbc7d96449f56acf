-- ===== src/Scenarios/Orchestration.antt =====
-- internal/orchestration and internal/gateway/semantic_router.go on a pack of two roles.
use nomici_orchestrator.Common.{
  String, ◌≡◌, refl, true, false, not, ◌&&◌, none, some, List, [], ◌∷◌, is_empty, trim_space,
  is_space, has_prefix, contains, to_lower,
}
use nomici_orchestrator.Graph.Types as Graph
use nomici_orchestrator.Orchestration.Types.{PackRole, Manifest}
use nomici_orchestrator.Orchestration.Words.{
  fields, fields_by, trim_by, equal_codes, contains_any, contains_token, wants_plan, wants_research,
  wants_fresh_info, wants_implementation, wants_mutation, has_workspace_intent, is_direct_query,
  is_casual_chat, is_ambiguous,
}
use nomici_orchestrator.Orchestration.Route.{
  has_text, unique, unique_after, default_agent, initial_route, workspace_route, route_words, route,
}
use nomici_orchestrator.Orchestration.Match.{match_roles}
use nomici_orchestrator.Orchestration.Unique.{Distinct, has_trimmed, unique-Distinct_members}
use nomici_orchestrator.Orchestration.Reviewed.{lower_goal, IsGuarded, route-IsGuarded}
use nomici_orchestrator.Orchestration.Partition.{IsPartition, match_roles-IsPartition}
use nomici_orchestrator.Gateway.Semantic.{Services}
use nomici_orchestrator.Gateway.Intent.{route_chat_intent}
use nomici_orchestrator.Gateway.Guarded.{IsRouted, route_chat_intent-IsRouted}
use nomici_orchestrator.Scenarios.Base.{start, graph_agent, graph_snapshot}

uniques : unique (" fetch" ∷ "" ∷ "search" ∷ "fetch " ∷ []) ≡ "fetch" ∷ "search" ∷ []
unfolding unique unique_after is_empty trim_space
uniques = refl

unique-Distinct_members_example :
    Distinct (unique (" fetch" ∷ "" ∷ "fetch " ∷ []))
    × ((v : String)
        → has_text (unique (" fetch" ∷ "" ∷ "fetch " ∷ [])) v
          ≡ (not (is_empty v) && has_trimmed (" fetch" ∷ "" ∷ "fetch " ∷ []) v))
unique-Distinct_members_example = unique-Distinct_members (" fetch" ∷ "" ∷ "fetch " ∷ [])

abbrev graph : Graph.Snapshot
graph =
    graph_snapshot (graph_agent "pm" "model" "m" "" ∷ graph_agent "coder" "model" "m" "" ∷ []) [] []
      []

guards : (route "Fix the failing build please" "" (some graph)).needs_plan_review ≡ true
unfolding route route_words workspace_route initial_route default_agent fields fields_by trim_by
    equal_codes contains_any contains_token wants_plan wants_research wants_fresh_info
    wants_implementation wants_mutation has_workspace_intent is_direct_query is_casual_chat
    is_ambiguous is_empty trim_space is_space has_prefix contains to_lower
guards = refl

answers : (route "hello there" "" (some graph)).mode ≡ "direct_reply"
unfolding route route_words workspace_route initial_route default_agent fields fields_by trim_by
    equal_codes contains_any contains_token wants_plan wants_research wants_fresh_info
    wants_implementation wants_mutation has_workspace_intent is_direct_query is_casual_chat
    is_ambiguous is_empty trim_space is_space has_prefix contains to_lower
answers = refl

route-IsGuarded_example :
    IsGuarded
      (lower_goal (route "Fix the failing build please" "" (some graph)))
      (route "Fix the failing build please" "" (some graph))
route-IsGuarded_example = route-IsGuarded "Fix the failing build please" "" (some graph)

abbrev role : String → List String → PackRole
role id tools = record {
  id = id;
  purpose = "";
  required_tools = tools;
  required_skills = [];
  model_preference = "";
  runtime_preference = "";
  handoff_mode = "";
  output_contract = record { kind = ""; description = ""; required = [] };
}

abbrev manifest : Manifest
manifest = record {
  entrypoints = "pm" ∷ [];
  roles = role "pm" [] ∷ role "coder" ("write_project" ∷ []) ∷ role "critic" [] ∷ [];
}

match_roles-IsPartition_example :
    IsPartition manifest graph (route "Fix the failing build please" "" (some graph)) (
      match_roles manifest (some graph) "pm" (route "Fix the failing build please" "" (some graph)))
match_roles-IsPartition_example =
    match_roles-IsPartition manifest graph "pm"
      (route "Fix the failing build please" "" (some graph)) refl

-- a model that always answers with the same words
abbrev services : Services
services = record {
  adapter = some (λ config key request. some (record {
    status = "completed";
    messages = record { role = "assistant"; content = "{}" } ∷ [];
  }));
  secrets = some (λ name. none);
  has_providers = false;
  decode = λ s. none;
  print = λ d. d.mode;
}

route_chat_intent-IsRouted_example :
    IsRouted
      (route "Fix the failing build please" "" (some graph))
      (route_chat_intent services "Fix the failing build please" "" (some graph) "")
      start
route_chat_intent-IsRouted_example =
    route_chat_intent-IsRouted services "Fix the failing build please" "" (some graph) "" start
