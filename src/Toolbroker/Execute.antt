-- ===== src/Toolbroker/Execute.antt =====
-- internal/toolbroker/broker.go: Execute and ExecuteApprovedRecord.
use nomici_orchestrator.Common.{
  Bool, String, ◌==◌, not, ◌&&◌, none, some, [], ◌∷◌, if◌then◌else◌, is_empty, trim_space, ◌^+◌,
}
use nomici_orchestrator.Paths.{Host}
use nomici_orchestrator.Store.{
  wrong_status, denied, ok, err, Exec, pure, raise, refuse_if, ◌>>=◌, ◌>>◌,
}
use nomici_orchestrator.Store.Rows.{Session, CallRecord}
use nomici_orchestrator.Policy.Types.{Decision, decision_deny, decision_approval, status_granted}
use nomici_orchestrator.Policy.Service
use nomici_orchestrator.Toolbroker.Types.{
  Definition, ExecuteRequest, Library, Tools, text, risk_critical, status_pending,
  status_waiting_approval, status_completed, status_denied, tool_bash,
}
use nomici_orchestrator.Toolbroker.Registry.{definition_by_id, requires_approval}
use nomici_orchestrator.Toolbroker.Risk.{classify_bash_risk}
use nomici_orchestrator.Toolbroker.Records.{create, get, update, mark_failed, mark_waiting_approval}
use nomici_orchestrator.Toolbroker.Broker.{
  ignore, session_of, string_input, trace, check_policy, perform,
}

-- a call that is recorded, with what it is about
pub record Prepared : Type 0 where
  pub session : Session
  pub request : ExecuteRequest
  pub definition : Definition
  pub tool_call_id : String
  pub risk : String

-- the command of a critical call of the shell
abbrev pub is_critical : Definition → String → Bool
is_critical definition risk = definition.id == tool_bash && risk == risk_critical

unfoldable pub risk_of : Definition → ExecuteRequest → String
risk_of definition request =
    if definition.id == tool_bash
    then (classify_bash_risk (string_input request.input "command" "")).level
    else definition.mutation_risk

-- the approval of a record that has one must be granted
unfoldable pub require_granted : CallRecord → Exec Unit
require_granted r = if is_empty r.approval_id then pure tt else (do
  approval ← Service.get r.approval_id
  refuse_if (not (approval.status == status_granted)) (wrong_status approval.status))

module _ (lib : Library) where
  -- An error of the policy service fails the call.
  unfoldable pub or_fail : String → Exec Decision → Exec Decision
  or_fail tool_call_id m w = elim (m w) [
    | ok d w' ↦ ok d w'
    | err e w' ↦ (ignore (mark_failed tool_call_id "" (lib.error_text e) none) >> raise e) w'
  ]

  -- the call is denied
  unfoldable pub refuse_call : ExecuteRequest → String → String → Decision → Exec CallRecord
  refuse_call request id tool_call_id decision = do
    ignore (
        update tool_call_id status_denied decision.risk "" decision.approval_id decision.reason none
          none)
    trace lib request.run_id "policy.blocked" request.agent_id (
        ("tool_call_id", text tool_call_id)
        ∷ ("tool_id", text id)
        ∷ ("reason", text decision.reason)
        ∷ [])
    raise (denied decision.reason)

  -- the call waits for an approval
  unfoldable pub await_approval : ExecuteRequest → String → String → Decision → Exec CallRecord
  await_approval request id tool_call_id decision = do
    updated ← mark_waiting_approval tool_call_id decision.risk decision.approval_id decision.reason
    trace lib request.run_id "approval.requested" request.agent_id (
        ("tool_call_id", text tool_call_id)
        ∷ ("tool_id", text id)
        ∷ ("approval_id", text decision.approval_id)
        ∷ ("risk", text decision.risk)
        ∷ ("reason", text decision.reason)
        ∷ [])
    pure updated

  -- the switch on the decision
  unfoldable pub by_decision :
      Tools → Session → ExecuteRequest → String → String → Decision → Exec CallRecord
  by_decision tools session request id tool_call_id decision =
      if decision.decision == decision_deny
      then refuse_call request id tool_call_id decision
      else if decision.decision == decision_approval
      then await_approval request id tool_call_id decision
      else perform lib tools session request id tool_call_id decision.risk

  -- what follows the decision of the policy service
  unfoldable pub obey :
      Tools → Session → ExecuteRequest → String → String → Decision → Exec CallRecord
  obey tools session request id tool_call_id decision = do
    trace lib request.run_id "policy.checked" request.agent_id (
        ("tool_call_id", text tool_call_id)
        ∷ ("tool_id", text id)
        ∷ ("decision", text decision.decision)
        ∷ ("risk", text decision.risk)
        ∷ ("approval_id", text decision.approval_id)
        ∷ ("reason", text decision.reason)
        ∷ [])
    by_decision tools session request id tool_call_id decision

  -- the part of Execute that asks the policy service
  unfoldable pub ask :
      Tools → Host → Session → ExecuteRequest → Definition → String → String → Exec CallRecord
  ask tools host session request definition tool_call_id risk = do
    decision ← or_fail tool_call_id (check_policy lib host session request definition tool_call_id)
    obey tools session request definition.id tool_call_id
        (record decision { risk = if risk == risk_critical then risk_critical else decision.risk })

  -- the refusal of a critical command
  unfoldable pub refuse_critical : ExecuteRequest → Definition → String → String → Exec CallRecord
  refuse_critical request definition tool_call_id risk = do
    let message =
        "command blocked by safety policy: "
        ^+ (classify_bash_risk (string_input request.input "command" "")).reason
    ignore (mark_failed tool_call_id "risk: critical" message (some ("stdout_stderr_preview" ∷ [])))
    trace lib request.run_id "policy.blocked" request.agent_id (
        ("tool_call_id", text tool_call_id)
        ∷ ("tool_id", text definition.id)
        ∷ ("risk", text risk)
        ∷ ("reason", text message)
        ∷ [])
    raise (denied message)

  -- what follows once the call is recorded
  unfoldable pub proceed :
      Tools → Host → Session → ExecuteRequest → Definition → String → String → Exec CallRecord
  proceed tools host session request definition tool_call_id risk =
      if is_critical definition risk
      then refuse_critical request definition tool_call_id risk
      else if requires_approval definition.id
      then ask tools host session request definition tool_call_id risk
      else perform lib tools session request definition.id tool_call_id risk

  -- Execute up to the record of the call and its trace
  unfoldable pub prepare : ExecuteRequest → Exec Prepared
  prepare asked = do
    definition ← definition_by_id (trim_space asked.tool_id)
    session ← session_of asked.session_id asked.run_id
    let request = record asked { session_id = session.session_id; run_id = session.run_id }
    let preview = lib.preview request.input
    let risk = risk_of definition request
    created ← create (record {
      session_id = request.session_id;
      run_id = request.run_id;
      task_id = request.task_id;
      tool_id = definition.id;
      status = status_pending;
      risk = risk;
      input_preview = preview;
      metadata = lib.definition_json definition;
    })
    trace lib request.run_id "tool.call.created" request.agent_id (
        ("tool_call_id", text created.tool_call_id)
        ∷ ("tool_id", text definition.id)
        ∷ ("task_id", text request.task_id)
        ∷ ("input_preview", text (lib.redact preview))
        ∷ [])
    pure (record {
      session = session;
      request = request;
      definition = definition;
      tool_call_id = created.tool_call_id;
      risk = risk;
    })

  unfoldable pub execute : Tools → Host → ExecuteRequest → Exec CallRecord
  execute tools host asked = do
    p ← prepare asked
    proceed tools host p.session p.request p.definition p.tool_call_id p.risk

  -- what follows once the record is known to be waiting
  unfoldable pub resume_record : Tools → ExecuteRequest → CallRecord → Exec CallRecord
  resume_record tools asked r = do
    require_granted r
    definition ← definition_by_id r.tool_id
    session ← session_of r.session_id r.run_id
    let request = record asked {
      session_id = r.session_id;
      run_id = r.run_id;
      task_id = if is_empty asked.task_id then r.task_id else asked.task_id;
      tool_id = if is_empty asked.tool_id then r.tool_id else asked.tool_id;
    }
    perform lib tools session request definition.id r.tool_call_id r.risk

  unfoldable pub by_status : Tools → ExecuteRequest → CallRecord → Exec CallRecord
  by_status tools asked r =
      if r.status == status_completed
      then pure r
      else if not (r.status == status_waiting_approval)
      then raise (wrong_status r.status)
      else resume_record tools asked r

  unfoldable pub execute_approved_record : Tools → String → ExecuteRequest → Exec CallRecord
  execute_approved_record tools tool_call_id asked = do
    r ← get tool_call_id
    by_status tools asked r
