-- ===== src/Gateway/Refused.antt =====
-- internal/gateway/run_handler.go: that no role runs in a session that does not run.
use nomici_orchestrator.Common.{
  String, ◌==◌, eq_iff, ◌≡◌, refl, sym, ◌∙◌, Bool, true, false, some, List, arith, if◌then◌else◌,
}
use nomici_orchestrator.Common.Table
use nomici_orchestrator.Store.{Db, World, Outcome, ok, err, final, Exec, Error, raise, ◌>>=◌}
use nomici_orchestrator.Store.Steps.{bind-err}
use nomici_orchestrator.Store.Moves.{Preorder, Moves, moves_rules}
use nomici_orchestrator.Store.Rows.{Session, Task}
use nomici_orchestrator.SharedContext.Redaction.{Pattern}
use nomici_orchestrator.Runs.Types.{status_running, status_completed}
use nomici_orchestrator.Runs.Sessions.{has_session, get_detail, get_by_session, list_tasks}
use nomici_orchestrator.Gateway.Ledger.{Codec, stop_if_session_runnable}
use nomici_orchestrator.Gateway.Lifecycle.{Files}
use nomici_orchestrator.Gateway.Roles.{Roles}
use nomici_orchestrator.Gateway.Session.{
  resume_tool_loop, approve_plan, resolve_approval, run_role, execute_step,
}
use nomici_orchestrator.Gateway.Paused.{runnable-found}

-- `m` returns an error in the world `w`, and the database is left as it was.
pub record Refuses {A : Type 0} (m : Exec A) (w : World) : Type 0 where
  pub error : Error
  pub world : World
  pub returned : m w ≡ err error world
  pub unchanged : world.db ≡ w.db

module _ {A : Type 0} (w : World) where
  Refuses-raise : (e : Error) → Refuses (raise {A = A} e) w
  unfolding raise
  Refuses-raise e = record { error = e; world = w; returned = refl; unchanged = refl }

  Refuses-if :
      (b : Bool) (m n : Exec A) → Refuses m w → Refuses n w → Refuses (if b then m else n) w
  Refuses-if true m n km kn = km
  Refuses-if false m n km kn = kn

  Refuses-else :
      (b : Bool) (m n : Exec A) → b ≡ false → Refuses n w → Refuses (if b then m else n) w
  Refuses-else true m n e k = absurd (ground arith)
  Refuses-else false m n e k = k

  Refuses-bind : {B : Type 0} (m : Exec B) (f : B → Exec A) → Refuses m w → Refuses (m >>= f) w
  Refuses-bind m f k = record {
    error = k.error;
    world = k.world;
    returned = bind-err m f w k.returned;
    unchanged = k.unchanged;
  }

ruleset refuses_rules = (Refuses-raise, Refuses-if, Refuses-bind)

abbrev pub Same : Db → Db → Type 0
Same a b = b ≡ a

Same-Preorder : Preorder Same
Same-Preorder = record { same = λ a. refl; trans = λ a b c h k. k ∙ h }

pub stop-Same : (session_id : String) → Moves Same (stop_if_session_runnable session_id)
unfolding stop_if_session_runnable get_by_session get_detail list_tasks
stop-Same session_id = search (moves_rules, Same-Preorder) depth 12

-- an action that only reads, and does not return
reads-Refuses :
    {A : Type 0} (m : Exec A) (w : World)
    → Moves Same m
    → ((a : A) (w' : World) → ¬ (m w ≡ ok a w'))
    → Refuses m w
reads-Refuses {A = A} m w h never = go (m w) refl (h.at w)
  where
    go : (x : Outcome A) → m w ≡ x → (final x).db ≡ w.db → Refuses m w
    go (ok a w') e k = absurd (never a w' e)
    go (err e w') same k = record { error = e; world = w'; returned = same; unchanged = k }

stop-Refuses :
    (session_id : String) (w : World) {s : Session}
    → Table.find (has_session session_id) w.db.run_sessions ≡ some s
    → (s.status == status_running) ≡ false
    → Refuses (stop_if_session_runnable session_id) w
stop-Refuses session_id w {s} there idle =
    reads-Refuses _ w (stop-Same session_id) (λ u w' e. runs e)
  where
    same_status : {a b : Session} → some a ≡ some b → a.status ≡ b.status
    same_status e = ground arith

    apart : (s.status == status_running) ≡ true → ⊥
    apart t = ground arith

    runs : {u : Unit} {w' : World} → ¬ (stop_if_session_runnable session_id w ≡ ok u w')
    runs e =
        let (x, found, running) = runnable-found session_id w e in
        apart ((eq_iff s.status status_running).1 (same_status (sym there ∙ found) ∙ running))

module _ (codec : Codec) (files : Files) (patterns : List Pattern) (roles : Roles) (run_id : String)
    (session : Session) (w : World)
    (stopped : Refuses (stop_if_session_runnable session.session_id) w) where
  resume_tool_loop-Refuses :
      (task : Task) (rest : List Task) (summaries : List String)
      → Refuses (resume_tool_loop codec files patterns roles run_id session task rest summaries) w
  unfolding resume_tool_loop
  resume_tool_loop-Refuses task rest summaries = Refuses-bind w _ _ stopped

  approve_plan-Refuses :
      (task : Task) (rest : List Task) (summaries : List String)
      → Refuses (approve_plan codec files patterns roles run_id session task rest summaries) w
  unfolding approve_plan
  approve_plan-Refuses task rest summaries = Refuses-bind w _ _ stopped

  resolve_approval-Refuses :
      (task : Task) (rest : List Task) (summaries : List String)
      → Refuses (resolve_approval codec files patterns roles run_id session task rest summaries) w
  unfolding resolve_approval
  resolve_approval-Refuses task rest summaries = Refuses-bind w _ _ stopped

  run_role-Refuses :
      (prompt : String) (task : Task) (rest : List Task) (summaries : List String)
      → Refuses (run_role codec files patterns roles run_id prompt session task rest summaries) w
  unfolding run_role
  run_role-Refuses prompt task rest summaries = Refuses-bind w _ _ stopped

  step-Refuses :
      (prompt : String) (task : Task) (rest : List Task) (summaries : List String)
      → (task.status == status_completed) ≡ false
      → Refuses
          (execute_step codec files patterns roles run_id prompt session task rest summaries)
          w
  unfolding execute_step
  step-Refuses prompt task rest summaries undone =
      search
        (
          refuses_rules, Refuses-else, resume_tool_loop-Refuses, approve_plan-Refuses,
          resolve_approval-Refuses, run_role-Refuses,
        )
        depth 12

-- Where the session is found and does not run, be it paused, cancelled or over, a turn of the loop for a
-- task that is not completed returns an error and leaves the database as it was, whatever the models and
-- the tools would do.
pub execute_step-Refuses :
    (codec : Codec) (files : Files) (patterns : List Pattern) (roles : Roles)
    (run_id prompt : String) (session : Session) (task : Task) (rest : List Task)
    (summaries : List String) (w : World) {s : Session}
    → Table.find (has_session session.session_id) w.db.run_sessions ≡ some s
    → (s.status == status_running) ≡ false
    → (task.status == status_completed) ≡ false
    → Refuses (execute_step codec files patterns roles run_id prompt session task rest summaries) w
execute_step-Refuses codec files patterns roles run_id prompt session task rest summaries w there
      idle undone =
    step-Refuses codec files patterns roles run_id session w
      (stop-Refuses session.session_id w there idle) prompt task rest summaries undone
