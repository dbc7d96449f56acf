-- ===== src/Policy/Types.antt =====
-- internal/policy/types.go: the words of the policy service, its requests and its decisions.
use nomici_orchestrator.Common.{String, Bool, List}

abbrev pub action_cli_invoke : String
action_cli_invoke = "runtime.cli_agent.invoke"

abbrev pub decision_allow : String
decision_allow = "allow"

abbrev pub decision_deny : String
decision_deny = "deny"

abbrev pub decision_approval : String
decision_approval = "approval"

abbrev pub status_pending : String
status_pending = "pending"

abbrev pub status_granted : String
status_granted = "granted"

abbrev pub status_denied : String
status_denied = "denied"

abbrev pub scope_once : String
scope_once = "once"

abbrev pub scope_run : String
scope_run = "run"

pub record ActionRequest : Type 0 where
  pub run_id : String
  pub action_id : String
  pub action_type : String
  pub project_id : String
  pub agent_id : String
  pub runtime_id : String
  pub workspace : String
  pub files_write : Bool
  pub summary : String
  pub subject : List (String × String)

-- `requested_at` is "" where the source leaves the zero time.
pub record Decision : Type 0 where
  pub decision : String
  pub risk : String
  pub reason : String
  pub fingerprint : String
  pub approval_id : String
  pub scope : String
  pub requested_at : String
