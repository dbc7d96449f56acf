-- ===== src/Gateway/Ended.antt =====
-- internal/gateway/run_handler.go: how a session stands after executeWorkspaceSession.
use nomici_orchestrator.Common.{
  String, ◌≡◌, refl, ◌∙◌, ap, ◌⊎◌, Option, none, some, List, [], ◌∷◌, arith,
}
use nomici_orchestrator.Common.Table
use nomici_orchestrator.Common.Table.Laws.{find-eq-some}
use nomici_orchestrator.Store.{World, ok, Exec, Error, pure, ◌>>=◌}
use nomici_orchestrator.Store.Inversion.{bind-eq-ok, pure-eq-ok}
use nomici_orchestrator.Store.Moves.{Moves-attempt}
use nomici_orchestrator.Store.Rows.{Session, Task}
use nomici_orchestrator.SharedContext.Redaction.{Pattern}
use nomici_orchestrator.Runs.Types.{status_plan_review, status_completed}
use nomici_orchestrator.Runs.Sessions.{has_session}
use nomici_orchestrator.Gateway.Ledger.{Object, Codec}
use nomici_orchestrator.Gateway.Lifecycle.{Files, block_for_plan_review}
use nomici_orchestrator.Gateway.Completion.{complete_session_lifecycle}
use nomici_orchestrator.Gateway.Roles.{Ran, finished, failed, Roles, leave_role}
use nomici_orchestrator.Gateway.Session.{
  after_resume, resume_tool_loop, approve_plan, resolve_approval, fail_role, after_run, run_role,
  execute_step, execute_tasks, execute_workspace_session,
}
use nomici_orchestrator.Gateway.Leaves.{
  Ends, AllEnd, complete-AllEnd, update_session_status-AllEnd, Leaves, Leaves-raise, leaves_rules,
}
use nomici_orchestrator.Gateway.Paused.{
  Kept-Preorder, kept, append_ledger-Kept, dropped-Kept, create-Kept, latest_plan-Kept,
  block_task-Kept,
}

-- that a step of the loop ends the loop
abbrev Stops : Option (List String) → Type 0
Stops o = o ≡ none

goes_on : (summaries : List String) → ¬ (Stops (some summaries))
goes_on summaries e = ground arith

module _ (codec : Codec) where
  block-AllEnd :
      (session : Session) (task : Task) (run_id : String) (w : World) {u : Unit} {w' : World}
      → block_for_plan_review codec session task run_id w ≡ ok u w'
      → AllEnd run_id w'.db
  unfolding block_for_plan_review
  block-AllEnd session task run_id w {u} {w'} h =
      let (_, w₁, updated, h₁) = bind-eq-ok _ _ w h in
      let (_, w₂, blocked, h₂) = bind-eq-ok _ _ w₁ h₁ in
      let (artifact_id, w₃, looked, h₃) = bind-eq-ok _ _ w₂ h₂ in
      let (_, w₄, asked, h₄) = bind-eq-ok _ _ w₃ h₃ in
      let still : w'.db.run_sessions ≡ w₁.db.run_sessions =
        kept _ w₄ (append_ledger-Kept codec _ _ _ _) h₄
        ∙ kept _ w₃ (dropped-Kept _ (create-Kept _)) asked
        ∙ kept _ w₂ (Moves-attempt Kept-Preorder _ _ (latest_plan-Kept _)) looked
        ∙ kept _ w₁ (block_task-Kept _ _ _) blocked in
      rw still (update_session_status-AllEnd run_id w updated)

  complete_lifecycle-AllEnd :
      (run_id : String) (w : World) {u : Unit} {w' : World}
      → complete_session_lifecycle codec run_id status_completed w ≡ ok u w'
      → AllEnd run_id w'.db
  unfolding complete_session_lifecycle
  complete_lifecycle-AllEnd run_id w h =
      let (_, w₁, _, h₁) = bind-eq-ok _ _ w h in
      let (_, w₂, _, h₂) = bind-eq-ok _ _ w₁ h₁ in
      let (_, w₃, _, h₃) = bind-eq-ok _ _ w₂ h₂ in complete-AllEnd run_id w₃ h₃

  module _ (patterns : List Pattern) (run_id : String) (session : Session) where
    reviewed-Leaves :
        (task : Task)
        → Leaves
            (AllEnd run_id)
            Stops
            (block_for_plan_review codec session task run_id >>= λ _. pure none)
    reviewed-Leaves task = record {
      after = λ w h p.
          let (_, w₁, blocked, h₁) =
            bind-eq-ok (block_for_plan_review codec session task run_id) (λ _. pure none) w h in
          let same = ap (λ (x : World). x.db.run_sessions) (pure-eq-ok none w₁ h₁).1 in
          rw same (block-AllEnd session task run_id w blocked);
    }

    leave_role-Leaves :
        (task : Task) (rest : List Task) (summaries : List String) (summary : String)
        (reason : Object)
        → Leaves
            (AllEnd run_id)
            Stops
            (leave_role codec patterns run_id session task rest summaries summary reason)
    unfolding leave_role
    leave_role-Leaves task rest summaries summary reason =
        search (leaves_rules, goes_on, reviewed-Leaves) depth 8

    module _ (files : Files) (roles : Roles) where
      after_resume-Leaves :
          (rest : List Task) (summaries : List String) (r : Ran)
          → Leaves
              (AllEnd run_id)
              Stops
              (after_resume codec files patterns roles run_id session rest summaries r)
      unfolding after_resume
      after_resume-Leaves rest summaries (failed t e) = Leaves-raise e
      after_resume-Leaves rest summaries (finished t preview observations) =
          search (leaves_rules, leave_role-Leaves) depth 8

      resume_tool_loop-Leaves :
          (task : Task) (rest : List Task) (summaries : List String)
          → Leaves
              (AllEnd run_id)
              Stops
              (resume_tool_loop codec files patterns roles run_id session task rest summaries)
      unfolding resume_tool_loop
      resume_tool_loop-Leaves task rest summaries =
          search (leaves_rules, after_resume-Leaves) depth 8

      approve_plan-Leaves :
          (task : Task) (rest : List Task) (summaries : List String)
          → Leaves
              (AllEnd run_id)
              Stops
              (approve_plan codec files patterns roles run_id session task rest summaries)
      unfolding approve_plan
      approve_plan-Leaves task rest summaries = search (leaves_rules, goes_on) depth 8

      resolve_approval-Leaves :
          (task : Task) (rest : List Task) (summaries : List String)
          → Leaves
              (AllEnd run_id)
              Stops
              (resolve_approval codec files patterns roles run_id session task rest summaries)
      unfolding resolve_approval
      resolve_approval-Leaves task rest summaries = search (leaves_rules, goes_on) depth 8

      fail_role-Leaves :
          (task : Task) (e : Error)
          → Leaves
              (AllEnd run_id)
              Stops
              (fail_role codec files patterns roles run_id session task e)
      unfolding fail_role
      fail_role-Leaves task e = search leaves_rules depth 10

      after_run-Leaves :
          (rest : List Task) (summaries : List String) (r : Ran)
          → Leaves
              (AllEnd run_id)
              Stops
              (after_run codec files patterns roles run_id session rest summaries r)
      unfolding after_run
      after_run-Leaves rest summaries (failed t e) = fail_role-Leaves t e
      after_run-Leaves rest summaries (finished t preview observations) =
          search (leaves_rules, leave_role-Leaves) depth 10

      run_role-Leaves :
          (prompt : String) (task : Task) (rest : List Task) (summaries : List String)
          → Leaves
              (AllEnd run_id)
              Stops
              (run_role codec files patterns roles run_id prompt session task rest summaries)
      unfolding run_role
      run_role-Leaves prompt task rest summaries = search (leaves_rules, after_run-Leaves) depth 10

      execute_step-Leaves :
          (prompt : String) (task : Task) (rest : List Task) (summaries : List String)
          → Leaves
              (AllEnd run_id)
              Stops
              (execute_step codec files patterns roles run_id prompt session task rest summaries)
      unfolding execute_step
      execute_step-Leaves prompt task rest summaries =
          search
            (
              leaves_rules, goes_on, resume_tool_loop-Leaves, approve_plan-Leaves,
              resolve_approval-Leaves, run_role-Leaves,
            )
            depth 10

      execute_tasks-AllEnd :
          (prompt : String) (tasks : List Task) (summaries : List String) (w : World) {u : Unit}
          {w' : World}
          → execute_tasks codec files patterns roles run_id prompt session tasks summaries w
            ≡ ok u w'
          → AllEnd run_id w'.db
      unfolding execute_tasks
      execute_tasks-AllEnd prompt [] summaries w h = complete_lifecycle-AllEnd run_id w h
      execute_tasks-AllEnd prompt (task ∷ rest) summaries w {u} {w'} h =
          let (next, w₁, stepped, h₁) = bind-eq-ok _ _ w h in
          go (λ more v k. execute_tasks-AllEnd prompt rest more v k) next w₁ stepped h₁
        where
          go :
              ((more : List String) (v : World)
                → execute_tasks codec files patterns roles run_id prompt session rest more v
                  ≡ ok u w'
                → AllEnd run_id w'.db)
              → (next : Option (List String)) (w₁ : World)
              → execute_step codec files patterns roles run_id prompt session task rest summaries w
                ≡ ok next w₁
              → (elim next as (λ o. Exec Unit) [
                | none ↦ pure tt
                | some more ↦
                    execute_tasks codec files patterns roles run_id prompt session rest more
              ])
                  w₁
                ≡ ok u w'
              → AllEnd run_id w'.db
          go rec none w₁ stepped h₁ =
              let same = ap (λ (x : World). x.db.run_sessions) (pure-eq-ok tt w₁ h₁).1 in
              rw same ((execute_step-Leaves prompt task rest summaries).after w stepped refl)
          go rec (some more) w₁ stepped h₁ = rec more w₁ h₁

-- Where executeWorkspaceSession returns without an error, each session of the run that is stored then,
-- looked up by its identifier, waits for the review of its plan or is completed. That is so whatever
-- the models, the tools and the prompts did to the database while the roles ran.
pub execute_workspace_session-Ended :
    (codec : Codec) (files : Files) (patterns : List Pattern) (roles : Roles)
    (run_id prompt : String) (session : Session) (tasks : List Task) (w : World) {u : Unit}
    {w' : World} (session_id : String) {s : Session}
    → execute_workspace_session codec files patterns roles run_id prompt session tasks w ≡ ok u w'
    → Table.find (has_session session_id) w'.db.run_sessions ≡ some s
    → s.run_id ≡ run_id
    → (s.status ≡ status_plan_review) ⊎ (s.status ≡ status_completed)
unfolding execute_workspace_session
execute_workspace_session-Ended codec files patterns roles run_id prompt session tasks w {u} {w'}
      session_id h there same =
    let all = execute_tasks-AllEnd codec patterns run_id session files roles prompt tasks [] w h in
    (find-eq-some (Ends run_id) (has_session session_id) w'.db.run_sessions there all).0 same
