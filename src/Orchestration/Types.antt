-- ===== src/Orchestration/Types.antt =====
-- internal/orchestration/router.go and internal/packs/types.go: a route, and the roles of a pack. A
-- confidence and a score are in hundredths.
use nomici_orchestrator.Common.{ℕ, String, ◌==◌, Bool, ◌||◌, List}

abbrev pub mode_workspace_run : String
mode_workspace_run = "workspace_run"

abbrev pub mode_clarify : String
mode_clarify = "clarify"

abbrev pub mode_direct_reply : String
mode_direct_reply = "direct_reply"

-- validRouteMode of internal/gateway/semantic_router.go
abbrev pub valid_route_mode : String → Bool
valid_route_mode mode =
    mode == mode_direct_reply || (mode == mode_clarify || mode == mode_workspace_run)

abbrev pub complexity_simple : String
complexity_simple = "simple"

abbrev pub complexity_medium : String
complexity_medium = "medium"

abbrev pub complexity_long_horizon : String
complexity_long_horizon = "long_horizon"

pub record RouteDecision : Type 0 where
  pub mode : String
  pub goal : String
  pub complexity : String
  pub recommended_agent_id : String
  pub selected_roles : List String
  pub needs_plan_review : Bool
  pub required_tools : List String
  pub required_skills : List String
  pub missing_inputs : List String
  pub risk : String
  pub confidence : ℕ
  pub rationale : String
  pub clarification : String
  pub manual_agent_id : String

pub record OutputContract : Type 0 where
  pub kind : String
  pub description : String
  pub required : List String

pub record PackRole : Type 0 where
  pub id : String
  pub purpose : String
  pub required_tools : List String
  pub required_skills : List String
  pub model_preference : String
  pub runtime_preference : String
  pub handoff_mode : String
  pub output_contract : OutputContract

-- what the matching reads of a manifest
pub record Manifest : Type 0 where
  pub entrypoints : List String
  pub roles : List PackRole

pub record RoleSelection : Type 0 where
  pub agent_id : String
  pub role_id : String
  pub sequence : ℕ
  pub purpose : String
  pub selection_reason : String
  pub match_score : ℕ
  pub required_tools : List String
  pub required_skills : List String
  pub output_contract : OutputContract

pub record SkippedRole : Type 0 where
  pub role_id : String
  pub reason : String

pub record MatchResult : Type 0 where
  pub entrypoint : String
  pub roles : List RoleSelection
  pub skipped_roles : List SkippedRole
  pub required_tools : List String
  pub needs_review : Bool
  pub selection_reason : String
