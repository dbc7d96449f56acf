-- ===== src/Toolbroker/Gate.antt =====
-- internal/toolbroker/broker.go: what has to be so before a tool runs.
use nomici_orchestrator.Common.{
  subst, String, ◌==◌, eq_iff, ◌≡◌, ap, ◌∙◌, ◌⊎◌, inl, inr, true, false, not, none, some, arith,
  is_empty, Bool-cases, trim_space,
}
use nomici_orchestrator.Common.Table
use nomici_orchestrator.Paths.{Host}
use nomici_orchestrator.Store.{
  World, Outcome, Error, ok, err, Db, Exec, refuse_if, wrong_status, raise, ◌>>=◌, ◌>>◌,
}
use nomici_orchestrator.Store.Inversion.{pure-eq-ok, bind-eq-ok, read-eq-ok, refuse_if-eq-ok}
use nomici_orchestrator.Store.Rows.{Session, CallRecord, Approval}
use nomici_orchestrator.Policy.Types.{
  Decision, decision_allow, decision_deny, decision_approval, status_granted,
}
use nomici_orchestrator.Policy.Service
use nomici_orchestrator.Policy.Service.Decisions.{check-decision}
use nomici_orchestrator.Policy.Service.Lifecycle.{get-eq-ok}
use nomici_orchestrator.Toolbroker.Types.{
  Definition, ExecuteRequest, Library, Tools, status_waiting_approval, status_completed,
}
use nomici_orchestrator.Toolbroker.Registry.{definition_by_id-id, requires_approval}
use nomici_orchestrator.Toolbroker.Records
use nomici_orchestrator.Toolbroker.Broker.{ignore, check_policy}
use nomici_orchestrator.Toolbroker.Execute.{
  Prepared, is_critical, prepare, execute, proceed, ask, obey, by_decision, or_fail,
  execute_approved_record, by_status, resume_record, require_granted,
}
use nomici_orchestrator.Toolbroker.Agree.{Agree, same-Agree, given-Agree, bind-Agree}

-- The call is recorded, it is no critical command of the shell, and the policy service, which is asked
-- about it next, allows it.
abbrev pub Allowed : Library → Host → ExecuteRequest → World → Type 0
Allowed lib host asked w =
    (p : Prepared) × (v : World) × (d : Decision) × (v' : World) × (prepare lib asked w ≡ ok p v)
    × (is_critical p.definition p.risk ≡ false)
    × (check_policy lib host p.session p.request p.definition p.tool_call_id v ≡ ok d v')
    × (d.decision ≡ decision_allow)

module _ (lib : Library) (host : Host) (tools tools' : Tools) where
  or_fail-eq-ok :
      (id : String) (m : Exec Decision) (w : World) {d : Decision} {w' : World}
      → or_fail lib id m w ≡ ok d w'
      → m w ≡ ok d w'
  unfolding or_fail
  or_fail-eq-ok id m w {d} {w'} h = go (m w) h
    where
      never : (v : World) (e : Error) → raise {A = Decision} e v ≡ ok d w' → ⊥
      never v e k = unfold raise in ground arith

      go :
          (x : Outcome Decision)
          → (elim x as (λ y. Outcome Decision) [
            | ok d w' ↦ ok d w'
            | err e w' ↦ (ignore (Records.mark_failed id "" (lib.error_text e) none) >> raise e) w'
          ])
            ≡ ok d w'
          → x ≡ ok d w'
      go (ok c v) k = k
      go (err e v) k = let (_, v', _, last) = bind-eq-ok _ _ v k in absurd (never v' e last)

  module _ (session : Session) (request : ExecuteRequest) (definition : Definition)
      (tool_call_id risk : String) (P : Type 0) where
    check_policy-decision :
        (w : World) {d : Decision} {w' : World}
        → check_policy lib host session request definition tool_call_id w ≡ ok d w'
        → (d.decision ≡ decision_allow)
          ⊎ (d.decision ≡ decision_deny)
          ⊎ (d.decision ≡ decision_approval)
    unfolding check_policy
    check_policy-decision w h =
        let (workspace, w₁, _, h₁) = bind-eq-ok _ _ w h in
        let (action_id, w₂, _, h₂) = bind-eq-ok _ _ w₁ h₁ in check-decision host _ w₂ h₂

    by_decision-Agree :
        (d : Decision) (w : World)
        → ((d.decision ≡ decision_allow) → P)
        → ((d.decision ≡ decision_allow)
            ⊎ (d.decision ≡ decision_deny)
            ⊎ (d.decision ≡ decision_approval))
        → Agree P
            (by_decision lib tools session request definition.id tool_call_id d)
            (by_decision lib tools' session request definition.id tool_call_id d)
            w
    unfolding by_decision
    by_decision-Agree d w reason one = elim (Bool-cases (d.decision == decision_deny)) [
      | inl e ↦ rw (e, by_decision) (same-Agree w _)
      | inr e ↦ elim (Bool-cases (d.decision == decision_approval)) [
        | inl f ↦ rw (e, f, by_decision) (same-Agree w _)
        | inr f ↦ given-Agree w _ _ (reason (only e f))
      ]
    ]
      where
        only :
            d.decision == decision_deny ≡ false
            → d.decision == decision_approval ≡ false
            → d.decision ≡ decision_allow
        only e f = elim one [
          | inl a ↦ a
          | inr (inl b) ↦ absurd (ground (arith, eq_iff d.decision decision_deny))
          | inr (inr c) ↦ absurd (ground (arith, eq_iff d.decision decision_approval))
        ]

    ask-Agree :
        (w : World)
        → ((d : Decision) (w' : World)
            → check_policy lib host session request definition tool_call_id w ≡ ok d w'
            → d.decision ≡ decision_allow
            → P)
        → Agree P
            (ask lib tools host session request definition tool_call_id risk)
            (ask lib tools' host session request definition tool_call_id risk)
            w
    unfolding ask obey
    ask-Agree w reason =
        bind-Agree w
          (or_fail lib tool_call_id (check_policy lib host session request definition tool_call_id))
          _ _
          λ d w₁ asked.
            let checked = or_fail-eq-ok tool_call_id _ w asked in
            bind-Agree w₁ _ _ _ λ _ w₂ _.
              by_decision-Agree _ w₂ (reason d w₁ checked) (check_policy-decision w checked)

    proceed-Agree :
        (w : World)
        → requires_approval definition.id ≡ true
        → (is_critical definition risk ≡ false
            → (d : Decision) (w' : World)
            → check_policy lib host session request definition tool_call_id w ≡ ok d w'
            → d.decision ≡ decision_allow
            → P)
        → Agree P
            (proceed lib tools host session request definition tool_call_id risk)
            (proceed lib tools' host session request definition tool_call_id risk)
            w
    unfolding proceed
    proceed-Agree w needs reason = elim (Bool-cases (is_critical definition risk)) [
      | inl e ↦ rw (e, proceed) (same-Agree w _)
      | inr e ↦ rw (e, needs, proceed) (ask-Agree w (reason e))
    ]

-- What is recorded is a call of the tool that was asked for.
prepare-id :
    (lib : Library) (asked : ExecuteRequest) (w : World) {p : Prepared} {w' : World}
    → prepare lib asked w ≡ ok p w'
    → p.definition.id ≡ trim_space asked.tool_id
unfolding prepare
prepare-id lib asked w h =
    let (definition, w₁, named, h₁) = bind-eq-ok _ _ w h in
    let (session, w₂, _, h₂) = bind-eq-ok _ _ w₁ h₁ in
    let (created, w₃, _, h₃) = bind-eq-ok _ _ w₂ h₂ in
    let (_, w₄, _, h₄) = bind-eq-ok _ _ w₃ h₃ in
    ap (λ (p : Prepared). p.definition.id) (pure-eq-ok _ w₄ h₄).0
    ∙ definition_by_id-id (trim_space asked.tool_id) w named

-- A tool that requires an approval runs only if, once the call is recorded, the policy service is asked
-- about this very call and allows it, and the call is no critical command of the shell: otherwise
-- Execute does the same, whatever the tools would do.
pub execute-Agree :
    (lib : Library) (host : Host) (tools tools' : Tools) (asked : ExecuteRequest) (w : World)
    → requires_approval (trim_space asked.tool_id) ≡ true
    → Agree
        (Allowed lib host asked w)
        (execute lib tools host asked)
        (execute lib tools' host asked)
        w
unfolding execute
execute-Agree lib host tools tools' asked w needs =
    bind-Agree w (prepare lib asked) _ _ λ p v prepared.
      proceed-Agree lib host tools tools' p.session p.request p.definition p.tool_call_id p.risk
        (Allowed lib host asked w) v
        (ap requires_approval (prepare-id lib asked w prepared) ∙ needs)
        (λ plain d v' checked allowed. (p, v, d, v', prepared, plain, checked, allowed))

-- the approval that a record names, if it names one, is granted
abbrev pub Granted : CallRecord → World → Type 0
Granted r w =
    (is_empty r.approval_id ≡ true)
    ⊎ ((a : Approval) × (Table.find (Service.has_id r.approval_id) w.db.approvals ≡ some a)
        × (a.status ≡ status_granted))

-- The record is waiting for an approval, and has it.
abbrev pub Released : String → World → Type 0
Released tool_call_id w =
    (r : CallRecord) × (Table.find (Records.has_id tool_call_id) w.db.tool_call_records ≡ some r)
    × (r.status ≡ status_waiting_approval)
    × Granted r w

require_granted-eq-ok :
    (r : CallRecord) (w : World) {u : Unit} {w' : World}
    → require_granted r w ≡ ok u w'
    → Granted r w
unfolding require_granted
require_granted-eq-ok r w {u} {w'} h = elim (Bool-cases (is_empty r.approval_id)) [
  | inl e ↦ inl e
  | inr e ↦ inr (has (rw (e, require_granted) at h))
]
  where
    has :
        (Service.get r.approval_id >>= λ a.
        refuse_if (not (a.status == status_granted)) (wrong_status a.status))
            w
          ≡ ok u w'
        → (a : Approval) × (Table.find (Service.has_id r.approval_id) w.db.approvals ≡ some a)
          × (a.status ≡ status_granted)
    has k =
        let (a, w₁, read, rest) = bind-eq-ok _ _ w k in
        let (found, _) = get-eq-ok r.approval_id w read in
        let (granted, _) = refuse_if-eq-ok _ _ w₁ rest in
        (a, found, (eq_iff a.status status_granted).0 (ground arith))

module _ (lib : Library) (tools tools' : Tools) (asked : ExecuteRequest) (tool_call_id : String)
    (w : World) where
  by_status-Agree :
      (r : CallRecord) (w₁ : World)
      → Table.find (Records.has_id tool_call_id) w.db.tool_call_records ≡ some r
      → w₁.db ≡ w.db
      → Agree
          (Released tool_call_id w)
          (by_status lib tools asked r)
          (by_status lib tools' asked r)
          w₁
  unfolding by_status resume_record
  by_status-Agree r w₁ found same = elim (Bool-cases (r.status == status_completed)) [
    | inl e ↦ rw (e, by_status) (same-Agree w₁ _)
    | inr e ↦ elim (Bool-cases (not (r.status == status_waiting_approval))) [
      | inl f ↦ rw (e, f, by_status) (same-Agree w₁ _)
      | inr f ↦
          rw (e, f, by_status)
            (bind-Agree w₁ (require_granted r) _ _ λ u w₂ passed. given-Agree w₂ _ _ (
              r,
              found,
              (eq_iff r.status status_waiting_approval).0 (ground arith),
              subst
                  (λ (db : Db).
                    (is_empty r.approval_id ≡ true)
                    ⊎ ((a : Approval) × (Table.find (Service.has_id r.approval_id) db.approvals
                          ≡ some a)
                        × (a.status ≡ status_granted)))
                  same (require_granted-eq-ok r w₁ passed),
            ))
    ]
  ]

-- A tool runs for a record only if the record is waiting for an approval and the approval that it
-- names, if it names one, is granted: otherwise the call does the same, whatever the tools would do.
pub execute_approved_record-Agree :
    (lib : Library) (tools tools' : Tools) (tool_call_id : String) (asked : ExecuteRequest)
    (w : World)
    → Agree
        (Released tool_call_id w)
        (execute_approved_record lib tools tool_call_id asked)
        (execute_approved_record lib tools' tool_call_id asked)
        w
unfolding execute_approved_record Records.get
execute_approved_record-Agree lib tools tools' tool_call_id asked w =
    bind-Agree w (Records.get tool_call_id) _ _ λ r w₁ read.
      let (found, w₁_is) =
        read-eq-ok (λ db. Table.find (Records.has_id tool_call_id) db.tool_call_records) w read in
      by_status-Agree lib tools tools' asked tool_call_id w r w₁ found
        (ap (λ (v : World). v.db) w₁_is)
