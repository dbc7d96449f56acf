-- ===== src/Policy/Classify.antt =====
-- internal/policy: how risky an action is, by its kind and its workspace, and its fingerprint.
use nomici_orchestrator.Common.{
  String, ◌==◌, Bool, true, false, not, ◌||◌, Option, none, some, List, [], ◌∷◌, if◌then◌else◌, any,
  is_empty, ◌^+◌,
}
use nomici_orchestrator.Paths
use nomici_orchestrator.Paths.{Host}
use nomici_orchestrator.Policy.Types.{
  ActionRequest, action_cli_invoke, decision_allow, decision_deny, decision_approval,
}

abbrev pub protected_paths : List String
protected_paths =
    "/bin" ∷ "/boot" ∷ "/dev" ∷ "/etc" ∷ "/private/etc" ∷ "/sbin" ∷ "/sys" ∷ "/System" ∷ "/usr/bin"
    ∷ "/usr/sbin" ∷ []

is_protected : String → Bool
is_protected clean =
    any (λ prefix. clean == prefix || Paths.starts_with (prefix ^+ "/") clean) protected_paths

-- the rest of `is_critical_workspace`, from the absolute path on
is_critical_path : Host → Option String → Bool
unfolding is_protected
is_critical_path host none = true
is_critical_path host (some absolute) =
    let clean = Paths.clean absolute in
    if clean == "/" then true else if host.windows then false else is_protected clean

unfoldable pub is_critical_workspace : Host → String → Bool
unfolding is_critical_path
is_critical_workspace host workspace =
    if is_empty workspace then false else is_critical_path host (Paths.abs host workspace)

pub record Verdict : Type 0 where
  pub risk : String
  pub decision : String
  pub reason : String

unfoldable pub classify : Host → ActionRequest → Verdict
classify host action =
    if not (action.action_type == action_cli_invoke)
    then record {
      risk = "high";
      decision = decision_approval;
      reason = "unknown action requires approval";
    }
    else if is_critical_workspace host action.workspace
    then record {
      risk = "critical";
      decision = decision_deny;
      reason = "workspace targets a protected system path";
    }
    else if action.files_write
    then record {
      risk = "medium";
      decision = decision_approval;
      reason = "mutable cli_agent workspace execution requires approval";
    }
    else record {
      risk = "low";
      decision = decision_allow;
      reason = "read-only cli_agent execution is allowed";
    }

unfoldable pub default_summary : ActionRequest → String
default_summary action =
    if action.action_type == action_cli_invoke
    then if action.files_write
      then "Run mutable cli_agent in " ^+ action.workspace
      else "Run read-only cli_agent in " ^+ action.workspace
    else action.action_type

absolute_or : String → Option String → String
absolute_or workspace none = workspace
absolute_or workspace (some absolute) = absolute

-- fingerprint.go; the separator is the byte 0
unfoldable pub fingerprint : Host → ActionRequest → String
unfolding absolute_or
fingerprint host action =
    "sha256:"
    ^+ host.sha256_hex (
        action.project_id
        ^+ "\0"
        ^+ action.action_type
        ^+ "\0"
        ^+ Paths.clean (absolute_or action.workspace (Paths.abs host action.workspace)))
