-- ===== src/Policy/Service/Gate.antt =====
-- internal/policy/service.go: what lets an action pass.
use nomici_orchestrator.Common.{
  sym, ◌∙◌, subst, ap, ℕ, String, ◌==◌, eq_iff, ◌≡◌, refl, ◌⊎◌, inl, inr, Bool, true, false, ◌||◌,
  Option, none, some, List, [], ◌∷◌, if◌then◌else◌, arith, All, is_empty, Bool-cases,
}
use mathlib.Core.Option.{some-injective}
use nomici_orchestrator.Common.Table
use nomici_orchestrator.Common.Table.Laws.{find-key}
use nomici_orchestrator.Common.Table.Selecting.{All-order_by, select-All_where}
use nomici_orchestrator.Paths.{Host}
use nomici_orchestrator.Store.{Db, Env, World, new_id, ok, exec, now, pure, ◌>>=◌, ◌>>◌}
use nomici_orchestrator.Store.Inversion.{
  bind-eq-ok, query-eq-ok, now-eq-ok, refuse_if-eq-ok, pure-eq-ok, exec-pure-eq-ok,
}
use nomici_orchestrator.Store.Rows.{Approval}
use nomici_orchestrator.Policy.Types.{
  ActionRequest, Decision, decision_allow, decision_deny, decision_approval, status_granted,
  scope_once, scope_run,
}
use nomici_orchestrator.Policy.Classify.{Verdict, classify, fingerprint}
use nomici_orchestrator.Policy.Service.{
  has_id, update_approval, scan_grants, grants, find_usable_grant, decide, judge, settled, check,
  completed,
}
use nomici_orchestrator.Policy.Service.Evolution.{IsUnique}

-- How a check for a run uses an approval, and what that leaves in the database: one for one use gets
-- the time of the use, one for a run is bound to the run or was bound to it before.
abbrev pub Uses : String → Env → Db → Approval → Approval → Db → Type 0
Uses run_id env before a g db =
    ((a.scope ≡ scope_once)
      × (is_empty a.consumed_at ≡ true)
      × ((n : ℕ) × (g ≡ record a { consumed_at = env.now n })
          × (db
              ≡ update_approval a.approval_id (λ r. record r { consumed_at = env.now n }) before)))
    ⊎ ((a.scope ≡ scope_run)
        × (is_empty a.bound_run_id ≡ true)
        × (g ≡ record a { bound_run_id = run_id })
        × (db ≡ update_approval a.approval_id (λ r. record r { bound_run_id = run_id }) before))
    ⊎ ((a.scope ≡ scope_run) × (a.bound_run_id ≡ run_id) × (g ≡ a) × (db ≡ before))

-- The grant that the loop returns is one of the rows, and the loop has written its use.
scan_grants-some :
    (P : Approval → Type 0) (run_id : String) (rows : List Approval) (w : World) {g : Approval}
    {w' : World}
    → scan_grants run_id rows w ≡ ok (some g) w'
    → All P rows
    → (a : Approval) × P a × Uses run_id w.env w.db a g w'.db
unfolding scan_grants
scan_grants-some P run_id [] w h all = absurd (unfold pure in ground arith)
scan_grants-some P run_id (a ∷ rest) w {g} {w'} h all = elim (Bool-cases (a.scope == scope_once)) [
  | inl e ↦ elim (Bool-cases (is_empty a.consumed_at)) [
    | inl unused ↦ (
      a,
      all.0,
      inl ((eq_iff a.scope scope_once).0 e, unused, consumed (rw (e, unused, scan_grants) at h)),
    )
    | inr f ↦ scan_grants-some P run_id rest w (rw (e, f, scan_grants) at h) all.1
  ]
  | inr e ↦ elim (Bool-cases (a.scope == scope_run)) [
    | inl r ↦ elim (Bool-cases (is_empty a.bound_run_id)) [
      | inl unbound ↦
          let (same, db) = bound (rw (e, r, unbound, scan_grants) at h) in
          (a, all.0, inr (inl ((eq_iff a.scope scope_run).0 r, unbound, same, db)))
      | inr f ↦ elim (Bool-cases (a.bound_run_id == run_id)) [
        | inl b ↦
            let h' : pure {A = Option Approval} (some a) w ≡ ok (some g) w' =
              rw (e, r, f, b, scan_grants) at h in
            (
              a,
              all.0,
              inr (
                  inr (
                    (eq_iff a.scope scope_run).0 r,
                    (eq_iff a.bound_run_id run_id).0 b,
                    unfold pure in ground arith,
                    unfold pure in ground arith,
                  )),
            )
        | inr b ↦ scan_grants-some P run_id rest w (rw (e, r, f, b, scan_grants) at h) all.1
      ]
    ]
    | inr r ↦ scan_grants-some P run_id rest w (rw (e, r, scan_grants) at h) all.1
  ]
]
  where
    consumed :
        (now >>= λ at.
        exec (update_approval a.approval_id (λ r. record r { consumed_at = at }))
        >> pure {A = Option Approval} (some (record a { consumed_at = at })))
            w
          ≡ ok (some g) w'
        → (n : ℕ) × (g ≡ record a { consumed_at = w.env.now n })
          × (w'.db
              ≡ update_approval a.approval_id (λ r. record r { consumed_at = w.env.now n }) w.db)
    consumed h =
        let (at, w₁, told, rest₁) = bind-eq-ok now _ w h in
        let (at_is, w₁_is) = now-eq-ok w told in
        let (same, db) = exec-pure-eq-ok _ _ w₁ rest₁ in
        (w.tick, rw (← at_is) (some-injective _ _ same), rw (← at_is) (rw w₁_is at db))

    bound :
        (exec (update_approval a.approval_id (λ r. record r { bound_run_id = run_id }))
              >> pure {A = Option Approval} (some (record a { bound_run_id = run_id })))
            w
          ≡ ok (some g) w'
        → (g ≡ record a { bound_run_id = run_id })
          × (w'.db ≡ update_approval a.approval_id (λ r. record r { bound_run_id = run_id }) w.db)
    bound h = let (same, db) = exec-pure-eq-ok _ _ w h in (some-injective _ _ same, db)

identified :
    (b : Bool) (prefix id : String) (w : World) {x : String} {w' : World}
    → (if b then new_id prefix else pure id) w ≡ ok x w'
    → (w'.db ≡ w.db) × (w'.env ≡ w.env)
unfolding new_id pure
identified true prefix id w h = ground arith
identified false prefix id w h = ground arith

module _ (print : String) (db : Db) where
  abbrev Fit : Approval → Type 0
  Fit a =
      (Table.find (has_id a.approval_id) db.approvals ≡ some a)
      × (a.status ≡ status_granted)
      × (a.action_fingerprint ≡ print)

  grants-Fit : IsUnique db → All Fit (grants print db)
  unfolding grants
  grants-Fit u = All-order_by Fit _ _ (
      select-All_where (λ (a : Approval). Table.find (has_id a.approval_id) db.approvals ≡ some a)
        Fit _
        (λ (a : Approval) found e. (
          found,
          ground (arith, eq_iff a.status status_granted, eq_iff a.action_fingerprint print),
          ground (arith, eq_iff a.action_fingerprint print, eq_iff a.status status_granted),
        ))
        db.approvals (find-key (λ a. a.approval_id) db.approvals u))

find_usable_grant-some :
    (print run_id : String) (w : World) {g : Approval} {w' : World}
    → IsUnique w.db
    → find_usable_grant print run_id w ≡ ok (some g) w'
    → (a : Approval) × Fit print w.db a × Uses run_id w.env w.db a g w'.db
unfolding find_usable_grant
find_usable_grant-some print run_id w u h =
    let (rows, w₁, asked, rest) = bind-eq-ok _ _ w h in
    let (rows_are, w₁_is) = query-eq-ok _ w asked in
    rw w₁_is at (
      scan_grants-some (Fit print w.db) run_id rows w₁ rest (rw rows_are (grants-Fit print w.db u)))

decide-allow :
    (action : ActionRequest) (verdict : Verdict) (print : String) (found : Option Approval)
    (w : World) {d : Decision} {w' : World}
    → decide action verdict print found w ≡ ok d w'
    → d.decision ≡ decision_allow
    → (g : Approval) × (found ≡ some g) × (d.approval_id ≡ g.approval_id) × (w' ≡ w)
unfolding decide
decide-allow action verdict print (some g) w h allowed =
    let (same, w'_is) = pure-eq-ok _ w h in (g, refl, ap (λ d. d.approval_id) same, w'_is)
decide-allow action verdict print none w h allowed =
    let (id, w₁, _, h₁) = bind-eq-ok _ _ w h in
    let (at, w₂, _, h₂) = bind-eq-ok _ _ w₁ h₁ in
    let (u, w₃, _, h₃) = bind-eq-ok _ _ w₂ h₂ in
    let (same, _) = pure-eq-ok _ w₃ h₃ in absurd (asks (sym (ap (λ d. d.decision) same) ∙ allowed))
  where
    asks : ¬ (decision_approval ≡ decision_allow)
    asks e = ground (arith, eq_iff decision_approval decision_allow)

Uses-id :
    (run_id : String) (env : Env) (before : Db) (a g : Approval) (after : Db)
    → Uses run_id env before a g after
    → g.approval_id ≡ a.approval_id
Uses-id run_id env before a g after (inl (_, _, (_, same, _))) =
    ap (λ (x : Approval). x.approval_id) same
Uses-id run_id env before a g after (inr (inl (_, _, same, _))) =
    ap (λ (x : Approval). x.approval_id) same
Uses-id run_id env before a g after (inr (inr (_, _, same, _))) =
    ap (λ (x : Approval). x.approval_id) same

-- Why an action was allowed: its classification allows it, and the database is as it was; or an
-- approval of the database was granted for its fingerprint, and is used.
abbrev pub Passes : Host → ActionRequest → Decision → Env → Db → Db → Type 0
Passes host action d env before after =
    (((classify host action).decision ≡ decision_allow) × (d.approval_id ≡ "") × (after ≡ before))
    ⊎ ((a : Approval) × (g : Approval) × Fit (fingerprint host action) before a
        × (d.approval_id ≡ a.approval_id)
        × Uses action.run_id env before a g after)

module _ (host : Host) (action : ActionRequest) (w : World) {d : Decision} {w' : World}
    (u : IsUnique w.db) (allowed : d.decision ≡ decision_allow) where
  settled-Passes :
      pure (settled (classify host action) (fingerprint host action)) w ≡ ok d w'
      → Passes host action d w.env w.db w'.db
  unfolding settled
  settled-Passes h =
      let (same, w'_is) = pure-eq-ok _ w h in
      inl (
        sym (ap (λ (x : Decision). x.decision) same) ∙ allowed,
        ap (λ (x : Decision). x.approval_id) same,
        ap (λ (x : World). x.db) w'_is,
      )

  decided-Passes :
      (find_usable_grant (fingerprint host action) action.run_id
            >>= decide action (classify host action) (fingerprint host action))
          w
        ≡ ok d w'
      → Passes host action d w.env w.db w'.db
  decided-Passes h =
      let (found, w₁, looked, rest) = bind-eq-ok _ _ w h in
      let (g, is, named, w'_is) =
        decide-allow action (classify host action) (fingerprint host action) found w₁ rest
          allowed in
      let (a, fits, uses) =
        find_usable_grant-some (fingerprint host action) action.run_id w u
          (looked ∙ ap (λ (x : Option Approval). ok x w₁) is) in
      inr (
        a,
        g,
        fits,
        named ∙ Uses-id action.run_id w.env w.db a g w₁.db uses,
        subst (λ (v : World). Uses action.run_id w.env w.db a g v.db) (sym w'_is) uses,
      )

  judge-Passes : judge host action w ≡ ok d w' → Passes host action d w.env w.db w'.db
  unfolding judge
  judge-Passes h =
      elim (Bool-cases (
        (classify host action).decision == decision_allow
        || (classify host action).decision == decision_deny)) [
          | inl e ↦ settled-Passes (rw (e, judge) at h)
          | inr e ↦ decided-Passes (rw (e, judge) at h)
        ]

-- A check that succeeds with the decision to allow had a reason: what the request is classified as,
-- or an approval of the database that was granted for the fingerprint of the very same request, and
-- that this check uses up, binds to its run or finds bound to it. The primary key of approvals is
-- taken to hold.
pub check-Passes :
    (host : Host) (request : ActionRequest) (w : World) {d : Decision} {w' : World}
    → IsUnique w.db
    → check host request w ≡ ok d w'
    → d.decision ≡ decision_allow
    → Passes host (completed request) d w.env w.db w'.db
unfolding check classify fingerprint
check-Passes host request w {d} {w'} u h allowed =
    let (_, w₁, present, h₁) = bind-eq-ok _ _ w h in
    let (_, w₁_is) = refuse_if-eq-ok _ _ w present in
    let (id, w₂, named, h₂) = bind-eq-ok _ _ w₁ h₁ in
    let (db_same, env_same) = identified _ _ _ w₁ named in
    let db_is : w₂.db ≡ w.db = db_same ∙ ap (λ (x : World). x.db) w₁_is in
    let env_is : w₂.env ≡ w.env = env_same ∙ ap (λ (x : World). x.env) w₁_is in
    let reason = judge-Passes host _ w₂ (subst IsUnique (sym db_is) u) allowed h₂ in
    subst (λ (b : Db). Passes host (completed request) d w.env b w'.db) db_is
      (subst (λ (v : Env). Passes host (completed request) d v w₂.db w'.db) env_is reason)
