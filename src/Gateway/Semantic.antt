-- ===== src/Gateway/Semantic.antt =====
-- internal/gateway/semantic_router.go: the route that a model proposes for a chat message.
use Prim.Native.String.{len, slice}
use nomici_orchestrator.Common.{
  ◌-◌, String, ◌==◌, Bool, true, false, not, ◌&&◌, ◌||◌, Option, List, [], ◌∷◌, ◌++◌, map, codes,
  contains, has_prefix, to_lower, trim_space, is_empty, leb, ◌=ℕ=◌, if◌then◌else◌,
}
use nomici_orchestrator.SharedContext.Redaction.{blank}
use nomici_orchestrator.Graph.Types as Graph
use nomici_orchestrator.Providers.Types.{Profile}
use nomici_orchestrator.Adapters.{ModelConfig, InvokeRequest, InvokeResult}
use nomici_orchestrator.Orchestration.Types.{RouteDecision, mode_clarify}
use nomici_orchestrator.Orchestration.Route.{unique}

-- what routeChatIntent reads of the services of the gateway. An adapter answers none where it fails or
-- returns nothing; `decode` is json.Unmarshal and `print` is %+v.
pub record Services : Type 0 where
  pub adapter : Option (ModelConfig → String → InvokeRequest → Option InvokeResult)
  pub secrets : Option (String → Option String)
  pub has_providers : Bool
  pub decode : String → Option RouteDecision
  pub print : RouteDecision → String

abbrev pub vague : String
vague = "What would you like Nomici to help with?"

unfoldable pub polish_route_decision : RouteDecision → RouteDecision
unfolding to_lower contains
polish_route_decision d =
    if not (d.mode == mode_clarify)
    then d
    else (let clarification = trim_space d.clarification in
        let lower = to_lower (codes clarification) in
        if is_empty clarification
          || (contains (codes "target outcome") lower
              || contains (codes "constraints") lower
              || contains (codes "files") lower
              || contains (codes "tools") lower)
        then record d { clarification = vague }
        else d)

abbrev is_some : {A : Type 0} → List A → Bool
is_some [] = false
is_some (x ∷ xs) = true

unfoldable pub semantic_route_accepted : RouteDecision → RouteDecision → Bool
semantic_route_accepted d fallback =
    d.confidence =ℕ= 0
    || leb 60 d.confidence
    || (d.mode == mode_clarify && is_some d.missing_inputs && not (blank d.clarification))

abbrev kept_or : String → String → String
kept_or value other = if blank value then other else value

unfoldable pub merge_route_defaults : RouteDecision → RouteDecision → RouteDecision
merge_route_defaults d fallback = record d {
  goal = kept_or d.goal fallback.goal;
  recommended_agent_id = kept_or d.recommended_agent_id fallback.recommended_agent_id;
  complexity = kept_or d.complexity fallback.complexity;
  confidence = if d.confidence =ℕ= 0 then fallback.confidence else d.confidence;
  risk = kept_or d.risk fallback.risk;
  rationale = kept_or d.rationale fallback.rationale;
  manual_agent_id = fallback.manual_agent_id;
  required_tools = unique (d.required_tools ++ fallback.required_tools);
  required_skills = unique (d.required_skills ++ fallback.required_skills);
  needs_plan_review = d.needs_plan_review || fallback.needs_plan_review;
}

-- strings.TrimPrefix and strings.TrimSuffix, the part first
unfoldable pub trim_prefix : String → String → String
unfolding has_prefix
trim_prefix part s =
    if has_prefix (codes part) (codes s) then slice s (len part) (len s - len part) else s

unfoldable pub trim_suffix : String → String → String
trim_suffix part s =
    if leb (len part) (len s) && slice s (len s - len part) (len part) == part
    then slice s 0 (len s - len part)
    else s

unfoldable pub parse_route_decision : Services → String → Option RouteDecision
unfolding trim_prefix trim_suffix
parse_route_decision services content = services.decode (
    trim_space (trim_suffix "```" (trim_prefix "```" (trim_prefix "```json" (trim_space content)))))

unfoldable pub graph_model_to_gateway_provider : Graph.Model → Profile
graph_model_to_gateway_provider m = record {
  id = m.id;
  name = m.id;
  kind = m.kind;
  base_url = m.base_url;
  model = m.model;
  api_key_env = m.api_key_env;
  capabilities = map (λ c. (c, "true")) m.capabilities;
  context_window = m.context_window;
  cost_per_1m_input = "0";
  cost_per_1m_output = "0";
  created_at = "";
  updated_at = "";
}
