-- ===== src/Gateway/Intent.antt =====
-- internal/gateway/semantic_router.go: the question that the model is asked, and what becomes of its
-- answer.
use nomici_orchestrator.Common.{
  String, ◌==◌, Bool, true, false, not, ◌&&◌, Option, none, some, List, [], ◌∷◌, ◌++◌, map,
  is_empty, leb, if◌then◌else◌, ◌^+◌,
}
use nomici_orchestrator.Common.Table
use nomici_orchestrator.SharedContext.Redaction.{join_with}
use nomici_orchestrator.Graph.Types as Graph
use nomici_orchestrator.Store.{
  Error, external, not_found, unsupported, no_rows, ok, err, Exec, pure, raise, attempt, refuse_if,
  ◌>>=◌, ◌>>◌,
}
use nomici_orchestrator.Providers.Types.{Profile}
use nomici_orchestrator.Providers.Profiles as Profiles
use nomici_orchestrator.Adapters.{status_completed, Message, InvokeRequest, InvokeResult}
use nomici_orchestrator.Orchestration.Types.{RouteDecision, mode_direct_reply, valid_route_mode}
use nomici_orchestrator.Orchestration.Route.{route}
use nomici_orchestrator.Gateway.Semantic.{
  Services, polish_route_decision, semantic_route_accepted, merge_route_defaults,
  parse_route_decision, graph_model_to_gateway_provider,
}

abbrev optional : String → String → List String
optional mark s = if is_empty s then [] else (mark ^+ s) ∷ []

abbrev listed : String → List String → List String
listed mark [] = []
listed mark (t ∷ ts) = (mark ^+ join_with "," (t ∷ ts)) ∷ []

-- a line for each agent of the graph
unfoldable pub agent_lines : Graph.Snapshot → List String
unfolding join_with
agent_lines s =
    map
      (λ (a : Graph.Agent). join_with " | " (
        a.id
        ∷ a.kind
        ∷ (optional "" a.description ++ (listed "tools=" a.tools ++ listed "skills=" a.skills))))
      s.ir.agents

unfoldable pub semantic_router_prompt :
    Services → String → String → Graph.Snapshot → RouteDecision → String → String
unfolding agent_lines join_with
semantic_router_prompt services prompt manual_agent_id snapshot fallback conversation =
    join_with "\n" (
      "Classify the chat message for a local long-horizon agent workspace."
      ∷ ""
      ∷ "Schema:"
      ∷ "{"
      ∷ "  \"mode\": \"direct_reply | clarify | workspace_run\","
      ∷ "  \"goal\": \"normalized user goal\","
      ∷ "  \"complexity\": \"simple | medium | long_horizon\","
      ∷ "  \"missing_inputs\": [\"short missing input names\"],"
      ∷ "  \"recommended_agent_id\": \"agent id or empty\","
      ∷ "  \"selected_roles\": [\"role ids\"],"
      ∷ "  \"required_tools\": [\"read_project\", \"write_project\", \"run_checks\", \"search\", \"fetch\"],"
      ∷ "  \"required_skills\": [\"planning\", \"research\", \"coding\", \"reporting\"],"
      ∷ "  \"needs_plan_review\": true,"
      ∷ "  \"risk\": \"low | medium | high | critical\","
      ∷ "  \"confidence\": 0.0,"
      ∷ "  \"rationale\": \"one concise sentence\","
      ∷ "  \"clarification\": \"question when mode is clarify\""
      ∷ "}"
      ∷ ""
      ∷ "Rules:"
      ∷ "- Prefer workspace_run when the request clearly requires planning, files, commands, research, or artifacts."
      ∷ "- Use direct_reply for greetings, general conversation, setup/status/navigation/help, and questions that do not need a run."
      ∷ "- Use clarify when required inputs are missing and executing would be unsafe. Ask one natural question; avoid engineering intake phrasing unless the user already used that language."
      ∷ "- Set needs_plan_review for mutation, shell, file writes, commits, deploys, or irreversible work."
      ∷ "- If a manual agent was provided, keep it as recommended_agent_id."
      ∷ ""
      ∷ ("Manual agent: " ^+ manual_agent_id)
      ∷ ("Fallback route: " ^+ services.print fallback)
      ∷ "Available agents:"
      ∷ join_with "\n" (agent_lines snapshot)
      ∷ ""
      ∷ "Recent chat context:"
      ∷ conversation
      ∷ ""
      ∷ "Chat message:"
      ∷ prompt
      ∷ [])

abbrev pub is_no_rows : Error → Bool
is_no_rows no_rows = true
is_no_rows e = false

-- a row that may be missing
unfoldable pub optional_row : {A : Type 0} → Exec A → Exec (Option A)
optional_row m w = elim (m w) [
  | ok a w' ↦ ok (some a) w'
  | err e w' ↦ if is_no_rows e then ok none w' else err e w'
]

unfoldable pub profile_of : Services → Graph.Model → Exec Profile
unfolding optional_row graph_model_to_gateway_provider
profile_of services m =
    if not (is_empty m.profile) && services.has_providers
    then (do
      stored ← optional_row (Profiles.get m.profile)
      pure (elim stored [ none ↦ graph_model_to_gateway_provider m | some p ↦ p ]))
    else pure (graph_model_to_gateway_provider m)

-- the key of a profile; none is a secret that is missing
unfoldable pub key_of : (String → Option String) → Profile → Option String
key_of resolve_env p = if is_empty p.api_key_env then some "" else resolve_env p.api_key_env

last_content : List Message → Option String
last_content [] = none
last_content (m ∷ []) = some m.content
last_content (m ∷ n ∷ rest) = last_content (n ∷ rest)

-- what a completed answer says last
unfoldable pub answer_of : Option InvokeResult → Option String
unfolding last_content
answer_of none = none
answer_of (some r) = if r.status == status_completed then last_content r.messages else none

-- the decision of an answer, after one attempt to have it repaired
unfoldable pub decision_of :
    Services → (InvokeRequest → Option InvokeResult) → String → Option RouteDecision
unfolding parse_route_decision answer_of
decision_of services invoke content = elim (parse_route_decision services content) [
  | some d ↦ some d
  | none ↦
      elim (answer_of (
        invoke (record {
          run_id = "";
          node_id = "chat_router_repair";
          messages =
              record {
                role = "user";
                content =
                    "Repair this response into valid route JSON matching the schema. Return JSON only.\n\n"
                    ^+ content;
              }
              ∷ [];
          timeout_ms = 30000;
        }))) [ none ↦ none | some repaired ↦ parse_route_decision services repaired ]
]

unfoldable pub router_request : String → InvokeRequest
router_request question = record {
  run_id = "";
  node_id = "chat_router";
  messages =
      record { role = "system"; content = "Return only valid JSON. Do not wrap it in markdown." }
      ∷ record { role = "user"; content = question }
      ∷ [];
  timeout_ms = 45000;
}

unfoldable pub found : {A : Type 0} → Option A → Error → Exec A
found none e = raise e
found (some a) e = pure a

unfoldable pub semantic_route :
    Services → String → String → Option Graph.Snapshot → RouteDecision → String → Exec RouteDecision
unfolding found profile_of key_of answer_of decision_of router_request semantic_router_prompt
semantic_route services prompt manual_agent_id snapshot fallback conversation = do
  adapter ← found services.adapter (external "semantic router unavailable")
  resolve_env ← found services.secrets (external "semantic router unavailable")
  s ← found snapshot (external "semantic router unavailable")
  let agent_id = if is_empty manual_agent_id then fallback.recommended_agent_id else manual_agent_id
  agent ← found (Table.find (λ a. a.id == agent_id) s.ir.agents) (not_found "semantic router agent")
  refuse_if (is_empty agent.model) (not_found "semantic router agent")
  model ←
      found (Table.find (λ m. m.id == agent.model) s.ir.models) (not_found "semantic router model")
  profile ← profile_of services model
  api_key ← found (key_of resolve_env profile) (not_found "semantic router missing provider secret")
  let invoke =
      adapter (record { kind = profile.kind; base_url = profile.base_url; model = profile.model })
        api_key
  content ←
      found
        (answer_of (
          invoke (
            router_request
              (semantic_router_prompt services prompt manual_agent_id s fallback conversation))))
        (external "semantic router did not complete")
  d ← found (decision_of services invoke content) (external "semantic router response")
  refuse_if (not (valid_route_mode d.mode)) (unsupported d.mode)
  pure d

-- what becomes of the model's decision, where there is one
unfoldable pub settled : RouteDecision → Option RouteDecision → RouteDecision
unfolding semantic_route_accepted merge_route_defaults polish_route_decision
settled fallback none = fallback
settled fallback (some d) =
    if semantic_route_accepted d fallback
    then polish_route_decision (merge_route_defaults d fallback)
    else record fallback {
      rationale =
          "Semantic route confidence was below the execution threshold; " ^+ fallback.rationale;
    }

-- routeChatIntent, from the decision that Route made
unfoldable pub route_from :
    Services → String → String → Option Graph.Snapshot → String → RouteDecision → Exec RouteDecision
unfolding semantic_route settled
route_from services prompt manual_agent_id snapshot conversation fallback =
    if fallback.mode == mode_direct_reply && leb 75 fallback.confidence then pure fallback else (do
      proposed ← attempt none (do
        d ← semantic_route services prompt manual_agent_id snapshot fallback conversation
        pure (some d))
      pure (settled fallback proposed))

unfoldable pub route_chat_intent :
    Services → String → String → Option Graph.Snapshot → String → Exec RouteDecision
unfolding route_from polish_route_decision
route_chat_intent services prompt manual_agent_id snapshot conversation =
    route_from services prompt manual_agent_id snapshot conversation
      (polish_route_decision (route prompt manual_agent_id snapshot))
