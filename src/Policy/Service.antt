-- ===== src/Policy/Service.antt =====
-- internal/policy/service.go: the approvals of the database, and the check of an action against them.
pub mod Evolution
pub mod Lifecycle
pub mod Gate
pub mod Decisions
pub mod Once
use mathlib.Core.Option
use nomici_orchestrator.Common.{
  ℕ, String, ◌==◌, Bool, true, false, not, ◌&&◌, ◌||◌, Option, none, some, List, [], ◌∷◌,
  if◌then◌else◌, any, is_empty, trim_space, str_lt, ◌^+◌,
}
use nomici_orchestrator.Common.Table
use nomici_orchestrator.Paths.{Host}
use nomici_orchestrator.Store.{
  Db, Error, required, unsupported, wrong_status, Exec, pure, raise, now, new_id, exec, exec_insert,
  query, refuse_if, row, ◌>>=◌, ◌>>◌,
}
use nomici_orchestrator.Store.Rows.{Approval}
use nomici_orchestrator.Policy.Types.{
  ActionRequest, Decision, action_cli_invoke, decision_allow, decision_deny, decision_approval,
  status_pending, status_granted, status_denied, scope_once, scope_run,
}
use nomici_orchestrator.Policy.Classify.{Verdict, classify, default_summary, fingerprint}

-- The primary key of approvals.
abbrev pub clash : Approval → Approval → Bool
clash a b = a.approval_id == b.approval_id

abbrev pub has_id : String → Approval → Bool
has_id approval_id a = a.approval_id == approval_id

unfoldable pub insert_approval : Approval → Db → Option Db
insert_approval a db =
    Option.map (λ rows. record db { approvals = rows }) (Table.insert clash a db.approvals)

-- an UPDATE of the approval with that identifier
unfoldable pub update_approval : String → (Approval → Approval) → Db → Db
update_approval approval_id f db = record db {
  approvals = Table.update (has_id approval_id) f db.approvals;
}

unfoldable pub get : String → Exec Approval
get approval_id = do found ← query (λ db. Table.find (has_id approval_id) db.approvals); row found

save_approval : Approval → Exec Unit
unfolding insert_approval
save_approval a = exec_insert (insert_approval a)

-- The loop of findUsableGrant over the rows that its query returned. A grant for one use is used up
-- by the time that is written into it, and a grant for a run is bound to the first run that uses it.
unfoldable pub scan_grants : String → List Approval → Exec (Option Approval)
unfolding update_approval
scan_grants run_id [] = pure none
scan_grants run_id (a ∷ rest) =
    let others = scan_grants run_id rest in
    if a.scope == scope_once
    then if is_empty a.consumed_at
      then (do
        at ← now
        exec (update_approval a.approval_id (λ r. record r { consumed_at = at }))
        pure (some (record a { consumed_at = at })))
      else others
    else if a.scope == scope_run
    then if is_empty a.bound_run_id
      then (do
        exec (update_approval a.approval_id (λ r. record r { bound_run_id = run_id }))
        pure (some (record a { bound_run_id = run_id })))
      else if a.bound_run_id == run_id
      then pure (some a)
      else others
    else others

-- the query of findUsableGrant
unfoldable pub grants : String → Db → List Approval
grants print db =
    Table.order_by (λ a b. str_lt a.resolved_at b.resolved_at)
      (Table.select (λ a. a.action_fingerprint == print && a.status == status_granted) db.approvals)

unfoldable pub find_usable_grant : String → String → Exec (Option Approval)
unfolding scan_grants grants
find_usable_grant print run_id = do rows ← query (grants print); scan_grants run_id rows

-- a request with what it leaves out filled in, but for its identifier
abbrev pub completed : ActionRequest → ActionRequest
completed action =
    let typed = record action {
      action_type = if is_empty action.action_type then action_cli_invoke else action.action_type;
    } in
    record typed {
      summary = if is_empty typed.summary then default_summary typed else typed.summary;
    }

new_approval : ActionRequest → Verdict → String → String → String → Approval
new_approval action verdict print approval_id requested_at = record {
  approval_id = approval_id;
  run_id = action.run_id;
  action_id = action.action_id;
  action_type = action.action_type;
  action_fingerprint = print;
  status = status_pending;
  risk = verdict.risk;
  scope = "";
  summary = action.summary;
  subject = action.subject;
  requested_by_agent = action.agent_id;
  runtime_id = action.runtime_id;
  reason = verdict.reason;
  requested_at = requested_at;
  resolved_at = "";
  consumed_at = "";
  bound_run_id = "";
}

-- what follows when classification allows or denies the action
settled : Verdict → String → Decision
settled verdict print = record {
  decision = verdict.decision;
  risk = verdict.risk;
  reason = verdict.reason;
  fingerprint = print;
  approval_id = "";
  scope = "";
  requested_at = "";
}

-- what follows when it asks for approval: the grant that was found, or a new approval
decide : ActionRequest → Verdict → String → Option Approval → Exec Decision
unfolding save_approval new_approval
decide action verdict print (some grant) = pure (record {
  decision = decision_allow;
  risk = verdict.risk;
  reason = "approved by " ^+ grant.approval_id;
  fingerprint = print;
  approval_id = grant.approval_id;
  scope = grant.scope;
  requested_at = "";
})
decide action verdict print none = do
  approval_id ← new_id "approval"
  requested_at ← now
  save_approval (new_approval action verdict print approval_id requested_at)
  pure (record {
    decision = decision_approval;
    risk = verdict.risk;
    reason = verdict.reason;
    fingerprint = print;
    approval_id = approval_id;
    scope = "";
    requested_at = requested_at;
  })

-- the part of Check that follows once the request is complete
judge : Host → ActionRequest → Exec Decision
unfolding settled decide
judge host action =
    let verdict = classify host action in
    let print = fingerprint host action in
    if verdict.decision == decision_allow || verdict.decision == decision_deny
    then pure (settled verdict print)
    else (do grant ← find_usable_grant print action.run_id; decide action verdict print grant)

unfoldable pub check : Host → ActionRequest → Exec Decision
unfolding judge
check host request = do
  refuse_if (is_empty request.run_id) (required "run_id")
  action_id ← (if is_empty request.action_id then new_id "action" else pure request.action_id)
  judge host (record (completed request) { action_id = action_id })

unfoldable pub grant : String → String → Exec Approval
unfolding update_approval
grant approval_id wanted = do
  let scope = if is_empty wanted then scope_once else wanted
  refuse_if (not (scope == scope_once) && not (scope == scope_run)) (unsupported scope)
  approval ← get approval_id
  refuse_if (not (approval.status == status_pending)) (wrong_status approval.status)
  at ← now
  exec (
      update_approval approval_id
        (λ r. record r { status = status_granted; scope = scope; resolved_at = at }))
  get approval_id

unfoldable pub deny : String → Exec Approval
unfolding update_approval
deny approval_id = do
  approval ← get approval_id
  refuse_if (not (approval.status == status_pending)) (wrong_status approval.status)
  at ← now
  exec (update_approval approval_id (λ r. record r { status = status_denied; resolved_at = at }))
  get approval_id

unfoldable pub list : String → Exec (List Approval)
list status = query (λ db.
    Table.order_by (λ a b. str_lt b.requested_at a.requested_at)
      (Table.select (λ a. is_empty status || a.status == status) db.approvals))

unfoldable pub list_by_run : String → String → Exec (List Approval)
list_by_run run_id status = do
  refuse_if (is_empty (trim_space run_id)) (required "run_id")
  query (λ db.
      Table.order_by (λ a b. str_lt b.requested_at a.requested_at)
        (Table.select
          (λ a. a.run_id == trim_space run_id && (is_empty status || a.status == status))
          db.approvals))
