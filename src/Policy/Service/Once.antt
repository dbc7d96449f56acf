-- ===== src/Policy/Service/Once.antt =====
-- internal/policy/service.go: an approval that is granted for one use.
use nomici_orchestrator.Common.{
  sym, ◌∙◌, subst, ap, ℕ, suc, ◌≤◌, String, ◌==◌, eq_iff, ◌≡◌, refl, inl, inr, Bool, true, false,
  ◌&&◌, some, List, [], ◌∷◌, if◌then◌else◌, arith, is_empty, Bool-cases,
}
use mathlib.Core.Option.{some-injective}
use nomici_orchestrator.Common.Table
use nomici_orchestrator.Common.Table.Laws.{find-update, find-eq-some, All-always}
use nomici_orchestrator.Common.Table.Extending.{Extends-find}
use nomici_orchestrator.Store.{Db, Env, World, Outcome, ok, err}
use nomici_orchestrator.Store.Rows.{Approval}
use nomici_orchestrator.Policy.Types.{
  ActionRequest, Decision, decision_allow, status_pending, status_granted, scope_once, scope_run,
}
use nomici_orchestrator.Paths.{Host}
use nomici_orchestrator.Policy.Service.{has_id, update_approval, check, completed}
use nomici_orchestrator.Policy.Service.Evolution.{IsUnique, Evolves}
use nomici_orchestrator.Policy.Service.Lifecycle.{
  PolicyCall, checks, grants_one, denies, serve, serve-Progress,
}
use nomici_orchestrator.Policy.Service.Gate.{check-Passes, Passes}

-- the call allows an action in the name of that approval
allows : String → Outcome Decision → Bool
allows x (ok d w) = d.decision == decision_allow && d.approval_id == x
allows x (err e w) = false

pub allowed_by : String → PolicyCall → World → Bool
unfolding allows
allowed_by x (checks host request) w = allows x (check host request w)
allowed_by x (grants_one approval_id scope) w = false
allowed_by x (denies approval_id) w = false

-- How often a list of calls allows an action in the name of that approval. Each call comes with the
-- clock, the random bytes and the failures that it meets.
unfoldable pub times_allowed : String → List (Env × PolicyCall) → World → ℕ
unfolding allowed_by
times_allowed x [] w = 0
times_allowed x ((env, call) ∷ rest) w =
    let before = record w { env = env } in
    let later = times_allowed x rest (serve call before) in
    if allowed_by x call before then suc later else later

-- the approval is in the database, granted for one use
abbrev pub IsOnce : String → Db → Type 0
IsOnce x db =
    (a : Approval) × (Table.find (has_id x) db.approvals ≡ some a)
    × (a.status ≡ status_granted)
    × (a.scope ≡ scope_once)

-- and it has been used
abbrev IsSpent : String → Db → Type 0
IsSpent x db =
    (a : Approval) × (Table.find (has_id x) db.approvals ≡ some a)
    × (a.status ≡ status_granted)
    × (a.scope ≡ scope_once)
    × (is_empty a.consumed_at ≡ false)

evolved_id : (x : String) (a b : Approval) → Evolves a b → has_id x b ≡ has_id x a
evolved_id x a b h = ap (λ (r : Approval). has_id x r) h.request

granted_stays :
    (a b : Approval)
    → Evolves a b
    → a.status ≡ status_granted
    → (b.status ≡ status_granted) × (b.scope ≡ a.scope)
granted_stays a b h g = ground (arith, eq_iff status_granted status_pending)

used_stays :
    (a b : Approval) → Evolves a b → is_empty a.consumed_at ≡ false → is_empty b.consumed_at ≡ false
used_stays a b h g = elim h.used [ inl e ↦ absurd (ground arith) | inr e ↦ rw e g ]

module _ (x : String) (call : PolicyCall) (w : World) (u : IsUnique w.db) where
  stays :
      {a : Approval}
      → Table.find (has_id x) w.db.approvals ≡ some a
      → (b : Approval) × (Table.find (has_id x) (serve call w).db.approvals ≡ some b) × Evolves a b
  stays found =
      Extends-find Evolves (has_id x) (evolved_id x) w.db.approvals (serve call w).db.approvals
        (serve-Progress call w u).1 found

  IsOnce-stays : IsOnce x w.db → IsOnce x (serve call w).db
  IsOnce-stays (a, found, granted, once) =
      let (b, there, e) = stays found in
      let (g, s) = granted_stays a b e granted in (b, there, g, s ∙ once)

  IsSpent-stays : IsSpent x w.db → IsSpent x (serve call w).db
  IsSpent-stays (a, found, granted, once, used) =
      let (b, there, e) = stays found in
      let (g, s) = granted_stays a b e granted in (b, there, g, s ∙ once, used_stays a b e used)

  IsUnique-stays : IsUnique (serve call w).db
  IsUnique-stays = (serve-Progress call w u).0

empty_text : ¬ (is_empty "" ≡ false)
unfolding is_empty
empty_text e = ground arith

-- After the UPDATE of an approval, its row is the updated one.
updated :
    (x : String) (f : Approval → Approval) (db : Db) {a : Approval}
    → ((r : Approval) → (f r).approval_id ≡ r.approval_id)
    → Table.find (has_id x) db.approvals ≡ some a
    → Table.find (has_id x) (update_approval x f db).approvals ≡ some (f a)
unfolding update_approval
updated x f db {a} keeps found =
    let named =
      (find-eq-some (λ _. Unit) (has_id x) db.approvals found
        (All-always _ (λ _. tt) db.approvals)).1 in
    find-update (has_id x) (has_id x) f
      (λ r. elim (Bool-cases (has_id x r)) [ inl e ↦ rw e (rw (keeps r) e) | inr e ↦ rw e e ])
      db.approvals
    ∙ rw (found, named) refl

-- What a check that allows an action in the name of an approval for one use does.
used-once :
    (host : Host) (request : ActionRequest) (x : String) (w : World) {d : Decision} {w' : World}
    {a : Approval}
    → IsUnique w.db
    → is_empty x ≡ false
    → Table.find (has_id x) w.db.approvals ≡ some a
    → a.scope ≡ scope_once
    → check host request w ≡ ok d w'
    → d.decision ≡ decision_allow
    → d.approval_id ≡ x
    → (is_empty a.consumed_at ≡ true)
      × ((n : ℕ) × (w'.db ≡ update_approval x (λ r. record r { consumed_at = w.env.now n }) w.db))
used-once host request x w {d} {w'} {a} u present found once h allowed named =
    go (check-Passes host request w u h allowed)
  where
    both : {b : Approval} → b.scope ≡ scope_run → b ≡ a → ⊥
    both {b} run same =
        let e : a.scope ≡ scope_run = ap (λ (r : Approval). r.scope) (sym same) ∙ run in
        ground (arith, eq_iff scope_once scope_run)

    go :
        Passes host (completed request) d w.env w.db w'.db
        → (is_empty a.consumed_at ≡ true)
          × ((n : ℕ) × (w'.db
                ≡ update_approval x (λ r. record r { consumed_at = w.env.now n }) w.db))
    go (inl (_, unnamed, _)) =
        absurd (empty_text (subst (λ t. is_empty t ≡ false) (sym named ∙ unnamed) present))
    go (inr (b, g, (there, _, _), is, uses)) =
        let id : b.approval_id ≡ x = sym is ∙ named in
        let same : b ≡ a =
          some-injective _ _
            (sym there ∙ ap (λ i. Table.find (has_id i) w.db.approvals) id ∙ found) in
        elim uses [
          | inl (_, unused, (n, _, db)) ↦ (rw (← same) unused, (n, rw (← id) db))
          | inr (inl (run, _, _, _)) ↦ absurd (both run same)
          | inr (inr (run, _, _, _)) ↦ absurd (both run same)
        ]

allows-true :
    (x : String) (o : Outcome Decision)
    → allows x o ≡ true
    → (d : Decision) × (w' : World) × (o ≡ ok d w')
      × (d.decision ≡ decision_allow)
      × (d.approval_id ≡ x)
unfolding allows
allows-true x (ok d w) h = (
  d,
  w,
  refl,
  (eq_iff d.decision decision_allow).0 (both_left _ _ h),
  (eq_iff d.approval_id x).0 (both_right _ _ h),
)
  where
    both_left : (a b : Bool) → a && b ≡ true → a ≡ true
    both_left a b h = ground arith

    both_right : (a b : Bool) → a && b ≡ true → b ≡ true
    both_right a b h = ground arith
allows-true x (err e w) h = absurd (ground arith)

module _ (x : String) (w : World) (u : IsUnique w.db) (present : is_empty x ≡ false) where
  -- After a call that allows an action in its name, an approval for one use is spent.
  spends :
      (call : PolicyCall)
      → ((n : ℕ) → is_empty (w.env.now n) ≡ false)
      → IsOnce x w.db
      → allowed_by x call w ≡ true
      → IsSpent x (serve call w).db
  unfolding allowed_by serve
  spends (checks host request) clock (a, found, granted, once) h =
      let (d, w', result, allowed, named) = allows-true x (check host request w) h in
      let (_, (n, db)) = used-once host request x w u present found once result allowed named in
      rw result (
        record a { consumed_at = w.env.now n },
        rw db (updated x _ w.db (λ r. refl) found),
        granted,
        once,
        clock n,
      )
  spends (grants_one approval_id scope) clock once h = absurd (ground arith)
  spends (denies approval_id) clock once h = absurd (ground arith)

  -- Once it is spent, no call allows an action in its name.
  spent-refused : (call : PolicyCall) → IsSpent x w.db → allowed_by x call w ≡ false
  unfolding allowed_by
  spent-refused (checks host request) (a, found, granted, once, used) =
      elim (Bool-cases (allowed_by x (checks host request) w)) [
        | inl e ↦
            let (d, w', result, allowed, named) = allows-true x (check host request w) e in
            let (unused, _) =
              used-once host request x w u present found once result allowed named in
            absurd (ground arith)
        | inr e ↦ e
      ]
  spent-refused (grants_one approval_id scope) spent = refl
  spent-refused (denies approval_id) spent = refl

spent-never :
    (x : String) (history : List (Env × PolicyCall)) (w : World)
    → IsUnique w.db
    → is_empty x ≡ false
    → IsSpent x w.db
    → times_allowed x history w ≡ 0
unfolding times_allowed
spent-never x [] w u present spent = refl
spent-never x ((env, call) ∷ rest) w u present spent =
    let before : World = record w { env = env } in
    rw (spent-refused x before u present call spent) (
      spent-never x rest (serve call before) (IsUnique-stays x call before u) present
        (IsSpent-stays x call before u spent))

-- every clock of the history gives a text
abbrev pub Ticks : List (Env × PolicyCall) → Type 0
Ticks [] = Unit
Ticks ((env, call) ∷ rest) = ((n : ℕ) → is_empty (env.now n) ≡ false) × Ticks rest

-- An approval that was granted for one use lets at most one action pass: in any sequence of checks,
-- grants and denials, each with a clock, random bytes and failures of its own, at most one check
-- succeeds with the decision to allow in the name of the approval. The primary key of approvals holds
-- at the start, the identifier is not empty, and the clocks give texts that are not.
pub single_use :
    (x : String) (history : List (Env × PolicyCall)) (w : World)
    → IsUnique w.db
    → is_empty x ≡ false
    → Ticks history
    → IsOnce x w.db
    → times_allowed x history w ≤ 1
unfolding times_allowed
single_use x [] w u present ticks once = ground arith
single_use x ((env, call) ∷ rest) w u present ticks once =
    let before : World = record w { env = env } in
    elim (Bool-cases (allowed_by x call before)) [
      | inl e ↦
          rw
            (
              e,
              spent-never x rest (serve call before) (IsUnique-stays x call before u) present
                  (spends x before u present call ticks.0 once e),
            )
            (ground arith)
      | inr e ↦ rw e (
          single_use x rest (serve call before) (IsUnique-stays x call before u) present ticks.1
            (IsOnce-stays x call before u once))
    ]
