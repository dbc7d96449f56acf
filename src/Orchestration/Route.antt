-- ===== src/Orchestration/Route.antt =====
-- internal/orchestration/router.go: Route and DirectReply.
use nomici_orchestrator.Common.{
  ℕ, String, ◌==◌, Bool, false, ◌&&◌, ◌||◌, not, Option, none, some, List, [], ◌∷◌, ◌++◌, any, map,
  codes, to_lower, trim_space, is_empty, str_lt, if◌then◌else◌,
}
use nomici_orchestrator.Common.Table
use nomici_orchestrator.SharedContext.Redaction.{join_with, blank}
use nomici_orchestrator.Graph.Types as Graph
use nomici_orchestrator.Orchestration.Types.{
  RouteDecision, mode_workspace_run, mode_clarify, mode_direct_reply, complexity_simple,
  complexity_medium, complexity_long_horizon,
}
use nomici_orchestrator.Orchestration.Words.{
  fields, wants_plan, wants_research, wants_fresh_info, wants_implementation, wants_mutation,
  has_workspace_intent, is_direct_query, is_casual_chat, is_ambiguous,
}

-- contains
abbrev pub has_text : List String → String → Bool
has_text values target = any (λ v. v == target) values

unfoldable pub unique_after : List String → List String → List String
unfolding is_empty trim_space
unique_after seen [] = []
unique_after seen (v ∷ vs) =
    let value = trim_space v in
    let known = is_empty value || has_text seen value in
    let rest = unique_after (if known then seen else value ∷ seen) vs in
    if known then rest else value ∷ rest

-- unique, and uniqueStrings of internal/gateway/semantic_router.go
unfoldable pub unique : List String → List String
unfolding unique_after
unique = unique_after []

-- `_, ok := snapshot.IR.Agents[id]`
abbrev pub has_agent : Graph.Snapshot → String → Bool
has_agent s id = any (λ a. a.id == id) s.ir.agents

first_text : List String → String
first_text [] = ""
first_text (s ∷ rest) = s

unfoldable pub default_agent : Option Graph.Snapshot → String
unfolding first_text
default_agent none = ""
default_agent (some s) =
    if has_agent s "product_pm"
    then "product_pm"
    else first_text (Table.order_by str_lt (map (λ a. a.id) s.ir.agents))

-- the decision before the prompt is looked at
unfoldable pub initial_route : String → String → Option Graph.Snapshot → RouteDecision
unfolding fields join_with
initial_route prompt manual_agent_id snapshot =
    let manual = trim_space manual_agent_id in
    record {
      mode = mode_workspace_run;
      goal = join_with " " (fields prompt);
      complexity = complexity_medium;
      recommended_agent_id = if is_empty manual then default_agent snapshot else manual;
      selected_roles = [];
      needs_plan_review = false;
      required_tools = [];
      required_skills = [];
      missing_inputs = [];
      risk = "medium";
      confidence = 55;
      rationale =
          if is_empty manual
          then "Defaulting to a workspace run so Nomici can plan, execute, and preserve artifacts."
          else "Manual agent override was provided.";
      clarification = "";
      manual_agent_id = manual;
    }

abbrev replies : RouteDecision → ℕ → String → RouteDecision
replies d confidence rationale = record d {
  mode = mode_direct_reply;
  complexity = complexity_simple;
  confidence = confidence;
  risk = "low";
  rationale = rationale;
}

abbrev clarifies : RouteDecision → String → ℕ → String → RouteDecision
clarifies d clarification confidence rationale = record d {
  mode = mode_clarify;
  complexity = complexity_simple;
  clarification = clarification;
  missing_inputs = "goal" ∷ [];
  confidence = confidence;
  risk = "low";
  rationale = rationale;
}

abbrev when : {A : Type 0} → Bool → List A → List A
when b xs = if b then xs else []

-- what is appended to RequiredTools
abbrev pub wanted_tools : Bool → Bool → Bool → List String
wanted_tools researches fresh implements =
    when researches ("read_project" ∷ [])
    ++ (when fresh ("search" ∷ "fetch" ∷ [])
        ++ when implements ("read_project" ∷ "write_project" ∷ "run_checks" ∷ []))

-- what the words ask for, of a decision that goes on to a workspace run
unfoldable pub workspace_route : List ℕ → RouteDecision → RouteDecision
workspace_route lower d =
    let researches = wants_research lower in
    let fresh = wants_fresh_info lower in
    let implements = wants_implementation lower in
    let long = implements || researches || fresh || wants_plan lower in
    let reviewed = implements || wants_mutation lower in
    record d {
      complexity = if long then complexity_long_horizon else complexity_medium;
      confidence = if long then 70 else d.confidence;
      rationale =
          if long
          then "The request implies planning, verification, implementation, or research across multiple steps."
          else d.rationale;
      required_tools = unique (wanted_tools researches fresh implements);
      required_skills =
          unique (when (researches || fresh) ("research" ∷ []) ++ when implements ("coding" ∷ []));
      needs_plan_review = reviewed;
      risk = if reviewed then "high" else d.risk;
    }

-- the branches of Route on the text in lower case
unfoldable pub route_words : List ℕ → RouteDecision → RouteDecision
unfolding workspace_route
route_words lower d =
    let manual = not (is_empty d.manual_agent_id) in
    if blank d.goal
    then clarifies d "What outcome should Nomici deliver?" 95 "The chat message was empty."
    else if not manual && is_direct_query lower
    then replies d 80
        "This looks like a status, setup, or navigation question rather than a workspace task."
    else if not manual && is_casual_chat lower
    then replies d 90 "This is conversational chat, not a workspace task."
    else if not manual && is_ambiguous lower
    then clarifies d "What would you like me to help with?" 80
        "The request is too short to choose a safe execution plan."
    else if not manual && not (has_workspace_intent lower)
    then replies d 75 "This is general chat and does not need planning, files, tools, or agents."
    else workspace_route lower d

unfoldable pub route : String → String → Option Graph.Snapshot → RouteDecision
unfolding route_words initial_route to_lower
route prompt manual_agent_id snapshot =
    let d = initial_route prompt manual_agent_id snapshot in route_words (to_lower (codes d.goal)) d

unfoldable pub direct_reply : RouteDecision → String
unfolding to_lower
direct_reply d =
    if d.mode == mode_clarify
    then d.clarification
    else if d.mode == mode_direct_reply
    then (if is_casual_chat (to_lower (codes d.goal))
        then "Hey. Tell me what you want to do, and I can either answer directly or turn it into a workspace run when it needs planning, files, tools, or agents."
        else "I can help here in chat. Ask a normal question, or describe a larger goal and I’ll open a workspace when it needs planning, files, tools, or agents.")
    else ""
