-- ===== src/Gateway/Leaves.antt =====
-- internal/gateway/run_handler.go: how a statement leaves the sessions of a run, and what is so of
-- an action for the sake of how it ends.
use nomici_orchestrator.Common.{
  Option, none, some, String, ◌==◌, eq_iff, ◌≡◌, refl, ◌⊎◌, inl, inr, Bool, true, false, List, [],
  ◌∷◌, arith, All, is_empty, if◌then◌else◌, Bool-cases,
}
use nomici_orchestrator.Common.Table
use nomici_orchestrator.Store.{Db, World, ok, Exec, Error, pure, raise, exec, ◌>>=◌}
use nomici_orchestrator.Store.Inversion.{bind-eq-ok, exec-eq-ok, pure-eq-ok}
use nomici_orchestrator.Store.Rows.{Session}
use nomici_orchestrator.Runs.Types.{status_plan_review, status_completed}
use nomici_orchestrator.Runs.Sessions.{update_sessions, update_session_status, complete_session}

-- the status of a session of the run
abbrev pub Ends : String → Session → Type 0
Ends run_id s = s.run_id ≡ run_id → (s.status ≡ status_plan_review) ⊎ (s.status ≡ status_completed)

abbrev pub AllEnd : String → Db → Type 0
AllEnd run_id db = All (Ends run_id) db.run_sessions

other_run : (run_id : String) (s : Session) → (s.run_id == run_id) ≡ false → Ends run_id s
other_run run_id s e same = absurd (apart ((eq_iff s.run_id run_id).1 same))
  where
    apart : (s.run_id == run_id) ≡ true → ⊥
    apart t = ground arith

-- an UPDATE of the sessions of the run that sets such a status
update-AllEnd :
    (run_id : String) (f : Session → Session)
    → ((s : Session) → ((f s).status ≡ status_plan_review) ⊎ ((f s).status ≡ status_completed))
    → (rows : List Session) → All (Ends run_id) (Table.update (λ s. s.run_id == run_id) f rows)
unfolding Table.update
update-AllEnd run_id f h [] = tt
update-AllEnd run_id f h (s ∷ rows) = elim (Bool-cases (s.run_id == run_id)) [
  | inl e ↦ rw e ((λ _. h s), update-AllEnd run_id f h rows)
  | inr e ↦ rw e (other_run run_id s e, update-AllEnd run_id f h rows)
]

exec-AllEnd :
    (run_id : String) (f : Session → Session) (w : World) {u : Unit} {w' : World}
    → ((s : Session) → ((f s).status ≡ status_plan_review) ⊎ ((f s).status ≡ status_completed))
    → exec (update_sessions (λ s. s.run_id == run_id) f) w ≡ ok u w'
    → AllEnd run_id w'.db
unfolding update_sessions
exec-AllEnd run_id f w h done =
    rw (exec-eq-ok _ w done).0 (update-AllEnd run_id f h w.db.run_sessions)

pub complete-AllEnd :
    (run_id : String) (w : World) {u : Unit} {w' : World}
    → complete_session run_id status_completed w ≡ ok u w'
    → AllEnd run_id w'.db
unfolding complete_session is_empty
complete-AllEnd run_id w h =
    let (at, w₁, told, h₁) = bind-eq-ok _ _ w h in exec-AllEnd run_id _ w₁ (λ s. inr refl) h₁

pub update_session_status-AllEnd :
    (run_id : String) (w : World) {u : Unit} {w' : World}
    → update_session_status run_id status_plan_review w ≡ ok u w'
    → AllEnd run_id w'.db
unfolding update_session_status
update_session_status-AllEnd run_id w h =
    let (_, w₁, _, h₁) = bind-eq-ok _ _ w h in
    let (_, w₂, _, h₂) = bind-eq-ok _ _ w₁ h₁ in
    let (at, w₃, told, h₃) = bind-eq-ok _ _ w₂ h₂ in exec-AllEnd run_id _ w₃ (λ s. inl refl) h₃

-- Where `m` returns a result in `P`, the database is in `Q`.
pub record Leaves {A : Type 0} (Q : Db → Type 0) (P : A → Type 0) (m : Exec A) : Type 0 where
  pub after : (w : World) {a : A} {w' : World} → m w ≡ ok a w' → P a → Q w'.db

module _ {Q : Db → Type 0} {A : Type 0} {P : A → Type 0} where
  pub Leaves-raise : (e : Error) → Leaves Q P (raise {A = A} e)
  unfolding raise
  Leaves-raise e = record { after = λ w h p. absurd (ground arith) }

  pub Leaves-pure : (a : A) → ¬ (P a) → Leaves Q P (pure a)
  Leaves-pure a n = record { after = λ w h p. absurd (n (rw (← (pure-eq-ok a w h).0) p)) }

  pub Leaves-if :
      (b : Bool) (m n : Exec A) → Leaves Q P m → Leaves Q P n → Leaves Q P (if b then m else n)
  Leaves-if true m n km kn = km
  Leaves-if false m n km kn = kn

  pub Leaves-option :
      {B : Type 0} (o : Option B) (n : Exec A) (f : B → Exec A)
      → Leaves Q P n
      → ((b : B) → Leaves Q P (f b))
      → Leaves Q P (elim o [ none ↦ n | some b ↦ f b ])
  Leaves-option none n f kn kf = kn
  Leaves-option (some b) n f kn kf = kf b

  pub Leaves-bind :
      {B : Type 0} (m : Exec B) (f : B → Exec A)
      → ((b : B) → Leaves Q P (f b))
      → Leaves Q P (m >>= f)
  Leaves-bind m f k = record {
    after = λ w h p. let (b, w₁, _, h₁) = bind-eq-ok m f w h in (k b).after w₁ h₁ p;
  }

pub ruleset leaves_rules = (Leaves-raise, Leaves-pure, Leaves-if, Leaves-option, Leaves-bind)
