-- ===== src/Runs/Consistent.antt =====
-- internal/runs/store.go: what every session that is stored has.
use nomici_orchestrator.Common.{
  String, ◌==◌, ◌≡◌, refl, Bool, ◌&&◌, some, List, [], ◌∷◌, arith, All, ==_comm, map-eq-some,
}
use nomici_orchestrator.Common.Table
use nomici_orchestrator.Common.Table.{NoClash, touch}
use nomici_orchestrator.Common.Table.Laws.{All-insert, All-update, NoClash-insert, NoClash-update}
use nomici_orchestrator.Store.{Db, World, final, exec, exec_counted}
use nomici_orchestrator.Store.Moves.{
  Moves, moves_rules, Moves-exec, Moves-exec_counted, Moves-exec_insert, Carries, Carries-Preorder,
}
use nomici_orchestrator.Store.Rows.{Session}
use nomici_orchestrator.Runs.Types.{CreateSessionRequest, execution_state_for, is_in}
use nomici_orchestrator.Runs.Sessions.{
  clash, has_session, insert_session, update_sessions, with_status, new_session, create_session,
  complete_session, update_session_status, change_session, refuse_change, get_by_session,
  get_detail, list_tasks, resume_session, cancel_session,
}

-- Its execution state is the one of its status.
abbrev pub InStep : Session → Type 0
InStep s = s.execution_state ≡ execution_state_for s.status

abbrev pub IsConsistent : Db → Type 0
IsConsistent db = All InStep db.run_sessions × NoClash clash db.run_sessions

clash_comm : (a b : Session) → clash a b ≡ clash b a
clash_comm a b = ground (arith, ==_comm a.session_id b.session_id, ==_comm a.run_id b.run_id)

insert_session-IsConsistent :
    (s : Session)
    → InStep s
    → (a b : Db) → insert_session s a ≡ some b
    → IsConsistent a
    → IsConsistent b
unfolding insert_session
insert_session-IsConsistent s step a b e h =
    let (rows, inserted, same) = map-eq-some _ (Table.insert clash s a.run_sessions) e in
    rw (← same) (
      All-insert InStep clash s a.run_sessions inserted step h.0,
      NoClash-insert clash clash_comm s a.run_sessions inserted h.1,
    )

-- An UPDATE keeps this, if it keeps the identifiers and puts each session in step.
update_sessions-IsConsistent :
    (p : Session → Bool) (f : Session → Session)
    → ((s : Session) → InStep (f s))
    → ((s : Session) → (f s).session_id ≡ s.session_id)
    → ((s : Session) → (f s).run_id ≡ s.run_id)
    → (db : Db) → IsConsistent db
    → IsConsistent (update_sessions p f db)
unfolding update_sessions
update_sessions-IsConsistent p f step keeps_session keeps_run db h = (
  All-update InStep p f (λ s _ _. step s) db.run_sessions h.0,
  NoClash-update clash p f
      (λ a b e.
        let k = keeps_session a in
        let l = keeps_session b in let m = keeps_run a in let n = keeps_run b in ground arith)
      db.run_sessions h.1,
)

session_step :
    (p : Session → Bool) (f : Session → Session)
    → ((s : Session) → InStep (f s))
    → ((s : Session) → (f s).session_id ≡ s.session_id)
    → ((s : Session) → (f s).run_id ≡ s.run_id)
    → Moves (Carries IsConsistent) (exec (update_sessions p f))
session_step p f step keeps_session keeps_run =
    Moves-exec (Carries-Preorder IsConsistent) _
      (update_sessions-IsConsistent p f step keeps_session keeps_run)

create_session-IsConsistent :
    (request : CreateSessionRequest) → Moves (Carries IsConsistent) (create_session request)
unfolding create_session new_session
create_session-IsConsistent request =
    search (moves_rules, Moves-exec_insert, Carries-Preorder, insert_session-IsConsistent) depth 12

complete_session-IsConsistent :
    (run_id status : String) → Moves (Carries IsConsistent) (complete_session run_id status)
unfolding complete_session
complete_session-IsConsistent run_id status = search (moves_rules, Carries-Preorder, step) depth 9
  where
    step :
        (wanted at : String)
        → Moves (Carries IsConsistent) (
            exec (
              update_sessions
                (λ s. s.run_id == run_id)
                (λ s. record (with_status wanted at s) { completed_at = at })))
    step wanted at = session_step _ _ (λ s. refl) (λ s. refl) (λ s. refl)

update_session_status-IsConsistent :
    (run_id status : String) → Moves (Carries IsConsistent) (update_session_status run_id status)
unfolding update_session_status
update_session_status-IsConsistent run_id status =
    search (moves_rules, Carries-Preorder, step) depth 9
  where
    step :
        (at : String)
        → Moves
            (Carries IsConsistent)
            (exec (update_sessions (λ s. s.run_id == run_id) (with_status status at)))
    step at = session_step _ _ (λ s. refl) (λ s. refl) (λ s. refl)

refuse_change-same : (session_id : String) → Moves (Carries IsConsistent) (refuse_change session_id)
unfolding refuse_change get_by_session get_detail list_tasks
refuse_change-same session_id = search (moves_rules, Carries-Preorder) depth 12

change_session-IsConsistent :
    (statuses : List String) (f : String → Session → Session) (session_id : String)
    → ((at : String) (s : Session) → InStep (f at s))
    → ((at : String) (s : Session) → (f at s).session_id ≡ s.session_id)
    → ((at : String) (s : Session) → (f at s).run_id ≡ s.run_id)
    → Moves (Carries IsConsistent) (change_session statuses f session_id)
unfolding change_session
change_session-IsConsistent statuses f session_id step keeps_session keeps_run =
    search (moves_rules, Carries-Preorder, refuse_change-same, change) depth 12
  where
    change :
        (at : String)
        → Moves (Carries IsConsistent) (
            exec_counted
              (λ db.
                Table.affected
                  (λ (s : Session). has_session session_id s && is_in statuses s.status)
                  db.run_sessions)
              (update_sessions
                (λ (s : Session). has_session session_id s && is_in statuses s.status)
                (f at)))
    change at =
        Moves-exec_counted (Carries-Preorder IsConsistent) _ _
          (update_sessions-IsConsistent _ (f at) (step at) (keeps_session at) (keeps_run at))

-- What a client may ask of the store about sessions, and the world after a list of such calls,
-- whatever each of them returns.
pub data SessionCall : Type 0 where
  creates : CreateSessionRequest → SessionCall
  completes : String → String → SessionCall
  updates : String → String → SessionCall
  resumes : String → SessionCall
  cancels : String → SessionCall

pub serve : SessionCall → World → World
serve (creates request) w = final (create_session request w)
serve (completes run_id status) w = final (complete_session run_id status w)
serve (updates run_id status) w = final (update_session_status run_id status w)
serve (resumes session_id) w = final (resume_session session_id w)
serve (cancels session_id) w = final (cancel_session session_id w)

pub serve_all : List SessionCall → World → World
serve_all [] w = w
serve_all (c ∷ cs) w = serve_all cs (serve c w)

serve-IsConsistent : (c : SessionCall) (w : World) → IsConsistent w.db → IsConsistent (serve c w).db
unfolding serve resume_session cancel_session
serve-IsConsistent (creates request) w h = (create_session-IsConsistent request).at w h
serve-IsConsistent (completes run_id status) w h =
    (complete_session-IsConsistent run_id status).at w h
serve-IsConsistent (updates run_id status) w h =
    (update_session_status-IsConsistent run_id status).at w h
serve-IsConsistent (resumes session_id) w h =
    (change_session-IsConsistent _ _ session_id (λ at s. refl) (λ at s. refl) (λ at s. refl)).at w h
serve-IsConsistent (cancels session_id) w h =
    (change_session-IsConsistent _ _ session_id (λ at s. refl) (λ at s. refl) (λ at s. refl)).at w h

-- Whatever sessions are created, completed, updated, resumed and cancelled, and whatever fails: the
-- execution state of every stored session is the one of its status, and no two sessions have the same
-- identifier or the same run, if this holds at the start.
pub sessions-IsConsistent :
    (calls : List SessionCall) (w : World) → IsConsistent w.db → IsConsistent (serve_all calls w).db
unfolding serve_all
sessions-IsConsistent [] w h = h
sessions-IsConsistent (c ∷ cs) w h = sessions-IsConsistent cs (serve c w) (serve-IsConsistent c w h)
