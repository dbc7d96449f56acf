-- ===== src/Policy/Service/Decisions.antt =====
-- internal/policy/service.go: what a check may decide.
use nomici_orchestrator.Common.{
  ◌∙◌, ap, String, ◌==◌, eq_iff, ◌≡◌, ◌⊎◌, inl, inr, ◌||◌, Option, none, some, arith, Bool-cases,
}
use nomici_orchestrator.Paths.{Host}
use nomici_orchestrator.Store.{World, ok}
use nomici_orchestrator.Store.Inversion.{bind-eq-ok, pure-eq-ok}
use nomici_orchestrator.Store.Rows.{Approval}
use nomici_orchestrator.Policy.Types.{
  ActionRequest, Decision, decision_allow, decision_deny, decision_approval,
}
use nomici_orchestrator.Policy.Classify.{Verdict, classify, fingerprint}
use nomici_orchestrator.Policy.Service.{find_usable_grant, decide, judge, settled, check, completed}

decide-decision :
    (action : ActionRequest) (verdict : Verdict) (print : String) (found : Option Approval)
    (w : World) {d : Decision} {w' : World}
    → decide action verdict print found w ≡ ok d w'
    → (d.decision ≡ decision_allow)
      ⊎ (d.decision ≡ decision_deny)
      ⊎ (d.decision ≡ decision_approval)
unfolding decide
decide-decision action verdict print (some g) w h =
    inl (ap (λ (x : Decision). x.decision) (pure-eq-ok _ w h).0)
decide-decision action verdict print none w h =
    let (id, w₁, _, h₁) = bind-eq-ok _ _ w h in
    let (at, w₂, _, h₂) = bind-eq-ok _ _ w₁ h₁ in
    let (u, w₃, _, h₃) = bind-eq-ok _ _ w₂ h₂ in
    inr (inr (ap (λ (x : Decision). x.decision) (pure-eq-ok _ w₃ h₃).0))

-- A check decides one of three things.
pub check-decision :
    (host : Host) (request : ActionRequest) (w : World) {d : Decision} {w' : World}
    → check host request w ≡ ok d w'
    → (d.decision ≡ decision_allow)
      ⊎ (d.decision ≡ decision_deny)
      ⊎ (d.decision ≡ decision_approval)
unfolding check judge settled
check-decision host request w {d} {w'} h =
    let (_, w₁, _, h₁) = bind-eq-ok _ _ w h in
    let (id, w₂, _, h₂) = bind-eq-ok _ _ w₁ h₁ in
    judged (record (completed request) { action_id = id }) w₂ h₂
  where
    judged :
        (action : ActionRequest) (v : World)
        → judge host action v ≡ ok d w'
        → (d.decision ≡ decision_allow)
          ⊎ (d.decision ≡ decision_deny)
          ⊎ (d.decision ≡ decision_approval)
    judged action v h =
        elim (Bool-cases (
          (classify host action).decision == decision_allow
          || (classify host action).decision == decision_deny)) [
            | inl e ↦
                let is : d.decision ≡ (classify host action).decision =
                  ap (λ (x : Decision). x.decision) (pure-eq-ok _ v (rw (e, judge) at h)).0 in
                elim (Bool-cases ((classify host action).decision == decision_allow)) [
                  | inl a ↦ inl (is ∙ (eq_iff _ _).0 a)
                  | inr n ↦ inr (
                      inl (
                        is
                        ∙ (eq_iff (classify host action).decision decision_deny).0 (ground arith)))
                ]
            | inr e ↦
                let (found, v₁, _, rest) =
                  bind-eq-ok (find_usable_grant (fingerprint host action) action.run_id) _ v
                    (rw (e, judge) at h) in
                decide-decision action (classify host action) (fingerprint host action) found v₁
                  rest
          ]
