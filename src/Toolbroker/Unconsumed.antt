-- ===== src/Toolbroker/Unconsumed.antt =====
-- internal/toolbroker/broker.go: what running an approved call does to the approvals.
use nomici_orchestrator.Common.{
  String, Option-cases, ◌==◌, ◌≡◌, refl, ◌∙◌, Option, some, none, List, inl, inr, map-eq-some,
}
use nomici_orchestrator.Common.Table
use nomici_orchestrator.Store.{Db, World, Outcome, ok, err, final, Exec}
use nomici_orchestrator.Store.Moves.{
  Preorder, Moves, moves_rules, Moves-exec, Moves-exec_insert, Moves-raise, Moves-pure,
}
use nomici_orchestrator.Store.Rows.{Event, CallRecord, Session}
use nomici_orchestrator.Trace
use nomici_orchestrator.Sandboxes
use nomici_orchestrator.Policy.Service
use nomici_orchestrator.Runs.Sessions.{get_by_run, get_by_session, get_detail, list_tasks}
use nomici_orchestrator.Toolbroker.Types.{ExecuteRequest, Library, Output, Tools}
use nomici_orchestrator.Toolbroker.Registry.{definition_by_id, definition_named, definitions}
use nomici_orchestrator.Toolbroker.Records
use nomici_orchestrator.Toolbroker.Broker.{
  caught, execute_allowed, perform, finish, ignore, trace, require_sandbox_permission, sandbox,
  session_of,
}
use nomici_orchestrator.Toolbroker.Execute.{
  execute_approved_record, by_status, resume_record, require_granted,
}

-- The approvals are as they were.
abbrev pub SameApprovals : Db → Db → Type 0
SameApprovals a b = b.approvals ≡ a.approvals

pub SameApprovals-Preorder : Preorder SameApprovals
SameApprovals-Preorder = record { same = λ a. refl; trans = λ a b c h k. k ∙ h }

insert_event-SameApprovals :
    (e : Event) (a b : Db) → Trace.insert_event e a ≡ some b → SameApprovals a b
unfolding Trace.insert_event
insert_event-SameApprovals e a b h =
    let (rows, _, same) = map-eq-some _ (Table.insert Trace.clash e a.trace_events) h in
    rw (← same) refl

append-SameApprovals : (e : Event) → Moves SameApprovals (Trace.append e)
unfolding Trace.append Trace.next_sequence
append-SameApprovals e =
    search (moves_rules, Moves-exec_insert, SameApprovals-Preorder, insert_event-SameApprovals)
      depth 12

update_record-SameApprovals :
    (id : String) (f : CallRecord → CallRecord) (a : Db)
    → SameApprovals a (Records.update_record id f a)
unfolding Records.update_record
update_record-SameApprovals id f a = refl

get-SameApprovals : (id : String) → Moves SameApprovals (Records.get id)
unfolding Records.get
get-SameApprovals id = search (moves_rules, SameApprovals-Preorder)

update-SameApprovals :
    (id status risk output approval_id message : String) (refs redactions : Option (List String))
    → Moves SameApprovals (Records.update id status risk output approval_id message refs redactions)
unfolding Records.update
update-SameApprovals id status risk output approval_id message refs redactions =
    search
      (
        moves_rules, Moves-exec, SameApprovals-Preorder, get-SameApprovals,
        update_record-SameApprovals,
      )
      depth 12

ignore-SameApprovals :
    {A : Type 0} (m : Exec A) → Moves SameApprovals m → Moves SameApprovals (ignore m)
unfolding ignore
ignore-SameApprovals m h = search (moves_rules, SameApprovals-Preorder) depth 6

ruleset kept_rules = (
  moves_rules, SameApprovals-Preorder, append-SameApprovals, get-SameApprovals,
  update-SameApprovals, ignore-SameApprovals,
)

session_of-SameApprovals :
    (session_id run_id : String) → Moves SameApprovals (session_of session_id run_id)
unfolding session_of get_by_session get_by_run get_detail list_tasks
session_of-SameApprovals session_id run_id = search (moves_rules, SameApprovals-Preorder) depth 12

require_granted-SameApprovals : (r : CallRecord) → Moves SameApprovals (require_granted r)
unfolding require_granted Service.get
require_granted-SameApprovals r = search (moves_rules, SameApprovals-Preorder) depth 12

sandbox-SameApprovals : (run_id : String) → Moves SameApprovals (sandbox run_id)
unfolding sandbox Sandboxes.get_by_run
sandbox-SameApprovals run_id = search (moves_rules, SameApprovals-Preorder) depth 9

caught-SameApprovals : (m : Exec Output) → Moves SameApprovals m → Moves SameApprovals (caught m)
unfolding caught
caught-SameApprovals m h = record { at = λ w. go w (m w) (h.at w) }
  where
    go :
        (w : World) (x : Outcome Output)
        → SameApprovals w.db (final x).db
        → SameApprovals w.db
            (final (elim x as (λ y. Outcome Output) [
              | ok o w' ↦ ok o w'
              | err e w' ↦
                  ok
                    (record {
                      output = "";
                      artifact_refs = none;
                      redactions = none;
                      failure = some e;
                    })
                    w'
            ])).db
    go w (ok o w') k = k
    go w (err e w') k = k

definition_by_id-SameApprovals : (id : String) → Moves SameApprovals (definition_by_id id)
unfolding definition_by_id definition_named
definition_by_id-SameApprovals id = elim (Option-cases (Table.find (λ d. d.id == id) definitions)) [
  | inl e ↦ rw e (Moves-raise SameApprovals-Preorder _)
  | inr (d, e) ↦ rw e (Moves-pure SameApprovals-Preorder d)
]

module _ (lib : Library) where
  trace-SameApprovals :
      (run_id event_type agent_id : String) (payload : _)
      → Moves SameApprovals (trace lib run_id event_type agent_id payload)
  unfolding trace
  trace-SameApprovals run_id event_type agent_id payload = search kept_rules depth 9

  finish-SameApprovals :
      (run_id agent_id id tool_call_id : String) (result : Output)
      → Moves SameApprovals (finish lib run_id agent_id id tool_call_id result)
  unfolding finish Records.mark_failed Records.mark_completed
  finish-SameApprovals run_id agent_id id tool_call_id result = elim (Option-cases result.failure) [
    | inl e ↦ rw (e, finish) (search (kept_rules, trace-SameApprovals) depth 9)
    | inr (x, e) ↦ rw (e, finish) (search (kept_rules, trace-SameApprovals) depth 9)
  ]

  require_sandbox_permission-SameApprovals :
      (run_id key : String) → Moves SameApprovals (require_sandbox_permission lib run_id key)
  unfolding require_sandbox_permission
  require_sandbox_permission-SameApprovals run_id key =
      search (moves_rules, SameApprovals-Preorder, sandbox-SameApprovals) depth 9

  module _ (tools : Tools)
      (kept : (id : String) (session : Session) (request : ExecuteRequest) (call : String)
        → Moves SameApprovals (tools id session request call)) where
    execute_allowed-SameApprovals :
        (session : Session) (request : ExecuteRequest) (id call : String)
        → Moves SameApprovals (execute_allowed lib tools session request id call)
    unfolding execute_allowed
    execute_allowed-SameApprovals session request id call =
        search
          (
            moves_rules, SameApprovals-Preorder, caught-SameApprovals,
            require_sandbox_permission-SameApprovals, kept,
          )
          depth 12

    perform-SameApprovals :
        (session : Session) (request : ExecuteRequest) (id call risk : String)
        → Moves SameApprovals (perform lib tools session request id call risk)
    unfolding perform Records.mark_running
    perform-SameApprovals session request id call risk =
        search (kept_rules, execute_allowed-SameApprovals, finish-SameApprovals) depth 12

    resume_record-SameApprovals :
        (asked : ExecuteRequest) (r : CallRecord)
        → Moves SameApprovals (resume_record lib tools asked r)
    unfolding resume_record
    resume_record-SameApprovals asked r =
        search
          (
            kept_rules, require_granted-SameApprovals, definition_by_id-SameApprovals,
            session_of-SameApprovals, perform-SameApprovals,
          )
          depth 12

-- Running a call that waits for an approval leaves the approvals as they are, if the work of the tools
-- does: the approval that it uses is not marked as used, also where it was granted for one use.
pub execute_approved_record-SameApprovals :
    (lib : Library) (tools : Tools)
    → ((id : String) (session : Session) (request : ExecuteRequest) (call : String)
        → Moves SameApprovals (tools id session request call))
    → (tool_call_id : String) (asked : ExecuteRequest)
    → Moves SameApprovals (execute_approved_record lib tools tool_call_id asked)
unfolding execute_approved_record by_status
execute_approved_record-SameApprovals lib tools kept tool_call_id asked =
    search (kept_rules, resume_record-SameApprovals, kept) depth 12
