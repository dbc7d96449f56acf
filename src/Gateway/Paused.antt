-- ===== src/Gateway/Paused.antt =====
-- internal/gateway/run_handler.go: a session that waits for the review of its plan does not run.
use mathlib.Core.Option
use nomici_orchestrator.Common.{
  String, ◌==◌, eq_iff, ◌≡◌, refl, sym, ◌∙◌, ap, true, false, some, arith, is_empty, map-eq-some,
  if◌then◌else◌, Bool-cases, inl, inr, List, [], ◌∷◌,
}
use nomici_orchestrator.Common.Table
use nomici_orchestrator.Common.Table.{touch}
use nomici_orchestrator.Common.Table.Laws.{find-update}
use nomici_orchestrator.Store.{Db, World, Outcome, ok, final, Exec, pure, raise, wrong_status}
use nomici_orchestrator.Store.Inversion.{
  bind-eq-ok, refuse_if-eq-ok, now-eq-ok, exec-eq-ok, query-eq-ok, pure-eq-ok, row-eq-ok,
}
use nomici_orchestrator.Store.Moves.{
  Preorder, Moves, moves_rules, Moves-raise, Moves-attempt, Moves-bind, Moves-pure, Moves-exec,
  Moves-exec_insert,
}
use nomici_orchestrator.Store.Rows.{Session, Task, Action, Event}
use nomici_orchestrator.Blocked as Blocked
use nomici_orchestrator.Artifacts.Types.{Artifact}
use nomici_orchestrator.Artifacts.Records as Records
use nomici_orchestrator.Trace as Trace
use nomici_orchestrator.Runs.Types.{SessionDetail, status_running, status_plan_review}
use nomici_orchestrator.Runs.Sessions.{
  has_session, update_sessions, with_status, update_session_status, get_detail, get_by_session,
  scan_session,
}
use nomici_orchestrator.Runs.Tasks.{set_task_blocked, update_tasks}
use nomici_orchestrator.Gateway.Ledger.{
  Object, Codec, append_run_ledger_trace, stop_if_session_runnable,
}
use nomici_orchestrator.Gateway.Lifecycle.{
  first_plan, latest_plan_artifact_id, dropped, block_for_plan_review,
}

-- The sessions are left as they were.
abbrev pub Kept : Db → Db → Type 0
Kept a b = b.run_sessions ≡ a.run_sessions

pub Kept-Preorder : Preorder Kept
Kept-Preorder = record { same = λ a. refl; trans = λ a b c h k. k ∙ h }

insert_action-Kept : (r : Action) (a b : Db) → Blocked.insert_action r a ≡ some b → Kept a b
unfolding Blocked.insert_action
insert_action-Kept r a b e =
    let (rows, _, same) = map-eq-some _ (Table.insert Blocked.clash r a.blocked_actions) e in
    ap (λ (d : Db). d.run_sessions) (sym same)

insert_event-Kept : (e : Event) (a b : Db) → Trace.insert_event e a ≡ some b → Kept a b
unfolding Trace.insert_event
insert_event-Kept r a b e =
    let (rows, _, same) = map-eq-some _ (Table.insert Trace.clash r a.trace_events) e in
    ap (λ (d : Db). d.run_sessions) (sym same)

pub block_task-Kept :
    (task_id status reason : String) → Moves Kept (set_task_blocked task_id status reason)
unfolding set_task_blocked update_tasks
block_task-Kept task_id status reason = search (moves_rules, Moves-exec, Kept-Preorder) depth 9

pub create-Kept : (request : Blocked.CreateRequest) → Moves Kept (Blocked.create request)
unfolding Blocked.create
create-Kept request =
    search (moves_rules, Moves-exec_insert, Kept-Preorder, insert_action-Kept) depth 12

next_sequence-Kept : (run_id : String) → Moves Kept (Trace.next_sequence run_id)
unfolding Trace.next_sequence
next_sequence-Kept run_id = search (moves_rules, Kept-Preorder)

append-Kept : (event : Event) → Moves Kept (Trace.append event)
unfolding Trace.append
append-Kept event =
    search (moves_rules, Moves-exec_insert, Kept-Preorder, insert_event-Kept, next_sequence-Kept)
      depth 14

first_plan-Kept : (artifacts : List Artifact) → Moves Kept (first_plan artifacts)
unfolding first_plan
first_plan-Kept [] = Moves-raise Kept-Preorder _
first_plan-Kept (a ∷ rest) = search (moves_rules, Kept-Preorder, first_plan-Kept rest) depth 6

pub latest_plan-Kept : (session_id : String) → Moves Kept (latest_plan_artifact_id session_id)
unfolding latest_plan_artifact_id Records.list
latest_plan-Kept session_id = search (moves_rules, Kept-Preorder, first_plan-Kept) depth 6

pub append_ledger-Kept :
    (codec : Codec) (run_id event_type node_id : String) (payload : Object)
    → Moves Kept (append_run_ledger_trace codec run_id event_type node_id payload)
unfolding append_run_ledger_trace
append_ledger-Kept codec run_id event_type node_id payload = append-Kept _

pub dropped-Kept : {A : Type 0} (m : Exec A) → Moves Kept m → Moves Kept (dropped m)
dropped-Kept m h =
    Moves-attempt Kept-Preorder tt _
      (Moves-bind Kept-Preorder m _ h (λ a. Moves-pure Kept-Preorder tt))

-- UpdateSessionStatus, on a session that it finds
update_session_status-found :
    (session_id run_id status : String) (w : World) {s : Session} {u : Unit} {w' : World}
    → Table.find (has_session session_id) w.db.run_sessions ≡ some s
    → s.run_id ≡ run_id
    → update_session_status run_id status w ≡ ok u w'
    → (at : String) × (Table.find (has_session session_id) w'.db.run_sessions
        ≡ some (with_status status at s))
unfolding update_session_status update_sessions
update_session_status-found session_id run_id status w {s} {u} {w'} there run h =
    let (_, w₁, named, h₁) = bind-eq-ok _ _ w h in
    let (_, w₂, wanted, h₂) = bind-eq-ok _ _ w₁ h₁ in
    let (at, w₃, told, h₃) = bind-eq-ok _ _ w₂ h₂ in
    let db : w₃.db ≡ w.db =
      ap (λ (x : World). x.db) ((now-eq-ok w₂ told).1)
      ∙ ap (λ (x : World). x.db) ((refuse_if-eq-ok _ _ w₁ wanted).1)
      ∙ ap (λ (x : World). x.db) ((refuse_if-eq-ok _ _ w named).1) in
    (at, put at w₃ db (ap (λ (x : World). x.db) (exec-eq-ok _ w₃ h₃).0))
  where
    put :
        (at : String) (w₃ : World)
        → w₃.db ≡ w.db
        → w'.db ≡ update_sessions (λ s. s.run_id == run_id) (with_status status at) w₃.db
        → Table.find (has_session session_id) w'.db.run_sessions ≡ some (with_status status at s)
    put at w₃ same done =
        ap (λ (d : Db). Table.find (has_session session_id) d.run_sessions) done
        ∙ find-update (has_session session_id) (λ r. r.run_id == run_id) (with_status status at)
            (λ r. ground arith) w₃.db.run_sessions
        ∙ ap
            (λ (d : Db).
              Option.map (touch (λ r. r.run_id == run_id) (with_status status at))
                (Table.find (has_session session_id) d.run_sessions))
            same
        ∙ ap (Option.map _) there
        ∙ ap (λ b. some (if b then with_status status at s else s)) ((eq_iff s.run_id run_id).1 run)

scan_session-status : (s : Session) → (scan_session s).status ≡ s.status
unfolding scan_session
scan_session-status s = elim (Bool-cases (is_empty s.execution_state)) [
  | inl e ↦ rw e refl
  | inr e ↦ rw e refl
]

get_by_session-found :
    (session_id : String) (w : World) {d : SessionDetail} {w' : World}
    → get_by_session session_id w ≡ ok d w'
    → (s : Session) × (Table.find (has_session session_id) w.db.run_sessions ≡ some s)
      × (d.session.status ≡ s.status)
unfolding get_by_session get_detail
get_by_session-found session_id w {d} {w'} h =
    let (found, w₁, asked, h₁) = bind-eq-ok _ _ w h in
    let (stored, w₂, there, h₂) = bind-eq-ok _ _ w₁ h₁ in
    let (tasks, w₃, _, h₃) = bind-eq-ok _ _ w₂ h₂ in
    let d_is = (pure-eq-ok _ w₃ h₃).0 in
    (
      stored,
      sym (query-eq-ok _ w asked).0 ∙ (row-eq-ok found w₁ there).0,
      ap (λ (x : SessionDetail). x.session.status) d_is ∙ scan_session-status stored,
    )

if_running :
    (status : String) (w : World) {u : Unit} {w' : World}
    → (if status == status_running then pure tt else raise (wrong_status status)) w ≡ ok u w'
    → status ≡ status_running
unfolding raise pure
if_running status w h = elim (Bool-cases (status == status_running)) [
  | inl e ↦ (eq_iff status status_running).0 e
  | inr e ↦ absurd (ground arith)
]

found_status : {a b : Session} → some a ≡ some b → a.status ≡ b.status
found_status e = ground arith

apart : ¬ (status_running ≡ status_plan_review)
apart e = let same : false ≡ true = (eq_iff status_running status_plan_review).1 e in ground arith

-- what stopIfSessionRunnable lets run
pub runnable-found :
    (session_id : String) (w : World) {u : Unit} {w' : World}
    → stop_if_session_runnable session_id w ≡ ok u w'
    → (s : Session) × (Table.find (has_session session_id) w.db.run_sessions ≡ some s)
      × (s.status ≡ status_running)
unfolding stop_if_session_runnable
runnable-found session_id w h =
    let (d, w₁, got, h₁) = bind-eq-ok _ _ w h in
    let (s, there, status) = get_by_session-found session_id w got in
    (s, there, sym status ∙ if_running d.session.status w₁ h₁)

pub kept :
    {A : Type 0} (m : Exec A) (w : World) {a : A} {w' : World}
    → Moves Kept m
    → m w ≡ ok a w'
    → w'.db.run_sessions ≡ w.db.run_sessions
kept {A = A} m w h e = sym (ap (λ (x : Outcome A). (final x).db.run_sessions) e) ∙ h.at w

-- Where blockForPlanReview returns without an error, a session of the run, found by its identifier, waits
-- for the review of its plan and is otherwise as it was but for the time of its last change. As long as
-- the sessions stay as they are, stopIfSessionRunnable does not return without an error for it.
pub block_for_plan_review-Paused :
    (codec : Codec) (session : Session) (task : Task) (session_id run_id : String) (w : World)
    {s : Session} {u : Unit} {w' : World} (v : World) {v' : World}
    → Table.find (has_session session_id) w.db.run_sessions ≡ some s
    → s.run_id ≡ run_id
    → block_for_plan_review codec session task run_id w ≡ ok u w'
    → v.db.run_sessions ≡ w'.db.run_sessions
    → ((at : String) × (Table.find (has_session session_id) w'.db.run_sessions
          ≡ some (with_status status_plan_review at s)))
      × ¬ (stop_if_session_runnable session_id v ≡ ok tt v')
unfolding block_for_plan_review
block_for_plan_review-Paused codec session task session_id run_id w {s} {u} {w'} v {v'} there run h
      same =
    let (_, w₁, updated, h₁) = bind-eq-ok _ _ w h in
    let (_, w₂, blocked, h₂) = bind-eq-ok _ _ w₁ h₁ in
    let (artifact_id, w₃, looked, h₃) = bind-eq-ok _ _ w₂ h₂ in
    let (_, w₄, asked, h₄) = bind-eq-ok _ _ w₃ h₃ in
    let (at, found) = update_session_status-found session_id run_id _ w there run updated in
    let still : w'.db.run_sessions ≡ w₁.db.run_sessions =
      kept _ w₄ (append_ledger-Kept codec _ _ _ _) h₄
      ∙ kept _ w₃ (dropped-Kept _ (create-Kept _)) asked
      ∙ kept _ w₂ (Moves-attempt Kept-Preorder _ _ (latest_plan-Kept _)) looked
      ∙ kept _ w₁ (block_task-Kept _ _ _) blocked in
    let after = ap (Table.find (has_session session_id)) still ∙ found in
    ((at, after), λ e. waits at after e)
  where
    waits :
        (at : String)
        → Table.find (has_session session_id) w'.db.run_sessions
          ≡ some (with_status status_plan_review at s)
        → ¬ (stop_if_session_runnable session_id v ≡ ok tt v')
    waits at after e =
        let (x, there', running) = runnable-found session_id v e in
        let found = sym there' ∙ ap (Table.find (has_session session_id)) same ∙ after in
        apart (sym running ∙ found_status found)
