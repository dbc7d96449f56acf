-- ===== src/Runs/Refs.antt =====
-- internal/runs/store.go: the artifacts that a task refers to.
use nomici_orchestrator.Common.{
  String, ◌==◌, ==_comm, ◌≡◌, refl, ◌⊎◌, inl, inr, true, false, some, List, [], ◌∷◌, ◌++◌, arith,
  any, Bool-cases, sym, ap, ◌∙◌, eq_refl,
}
use nomici_orchestrator.Common.Table
use nomici_orchestrator.Common.Table.{touch, NoClash}
use nomici_orchestrator.Common.Table.Laws.{
  find-update, find-eq-some, All-always, NoClash-append_one,
}
use nomici_orchestrator.Store.{Db, World, now, exec, ok, ◌>>=◌}
use nomici_orchestrator.Store.Inversion.{
  bind-eq-ok, refuse_if-eq-ok, query-eq-ok, row-eq-ok, pure-eq-ok, now-eq-ok, exec-eq-ok,
}
use nomici_orchestrator.Store.Rows.{Task}
use nomici_orchestrator.Runs.Tasks.{add_task_artifact_ref, add_ref, has_task, update_tasks}

-- no text stands twice in the list
abbrev pub IsDistinct : List String → Type 0
IsDistinct refs = NoClash (λ r s. s == r) refs

-- What is there once `ref` has been added to a list: it, and what was there, in its order; nothing
-- twice, if nothing was.
pub record Adds (ref : String) (before after : List String) : Type 0 where
  pub there : any (λ r. r == ref) after ≡ true
  pub kept : (after ≡ before) ⊎ (after ≡ before ++ ref ∷ [])
  pub distinct : IsDistinct before → IsDistinct after

any-append_one : (ref : String) (refs : List String) → any (λ r. r == ref) (refs ++ ref ∷ []) ≡ true
any-append_one ref [] = rw eq_refl refl
any-append_one ref (r ∷ refs) = ground (arith, any-append_one ref refs)

added :
    (ref : String) (refs : List String)
    → any (λ r. r == ref) refs ≡ false
    → Adds ref refs (refs ++ ref ∷ [])
added ref refs fresh = record {
  there = any-append_one ref refs;
  kept = inr refl;
  distinct = NoClash-append_one (λ r s. s == r) (λ r s. ==_comm s r) ref refs fresh;
}

-- the UPDATE of the references
abbrev set_refs : List String → String → Task → Task
set_refs refs at t = record t { artifact_refs = refs; updated_at = at }

-- After the UPDATE of a task, its row is the updated one.
updated :
    (task_id at : String) (refs : List String) (db : Db) {t : Task}
    → Table.find (has_task task_id) db.run_tasks ≡ some t
    → Table.find
        (has_task task_id)
        (update_tasks (has_task task_id) (set_refs refs at) db).run_tasks
      ≡ some (set_refs refs at t)
unfolding update_tasks
updated task_id at refs db found =
    let named =
      (find-eq-some (λ _. Unit) (has_task task_id) db.run_tasks found
        (All-always _ (λ _. tt) db.run_tasks)).1 in
    find-update (has_task task_id) (has_task task_id) (set_refs refs at) same db.run_tasks
    ∙ rw (found, named) refl
  where
    same :
        (r : Task)
        → has_task task_id (touch (has_task task_id) (set_refs refs at) r) ≡ has_task task_id r
    same r = elim (Bool-cases (has_task task_id r)) [ inl e ↦ rw e e | inr e ↦ rw e e ]

-- the task as it was, with the reference added
abbrev Added : String → String → Task → Db → Type 0
Added task_id ref t db =
    (t' : Task) × (Table.find (has_task task_id) db.run_tasks ≡ some t')
    × Adds ref t.artifact_refs t'.artifact_refs

module _ (task_id ref : String) {t : Task} where
  writes-Added :
      (w : World) {u : Unit} {w' : World}
      → Table.find (has_task task_id) w.db.run_tasks ≡ some t
      → any (λ r. r == ref) t.artifact_refs ≡ false
      → (now >>= λ at.
            exec (update_tasks (has_task task_id) (set_refs (t.artifact_refs ++ ref ∷ []) at)))
          w
        ≡ ok u w'
      → Added task_id ref t w'.db
  writes-Added w {u} {w'} found fresh h =
      let (at, w₁, told, h₁) = bind-eq-ok now _ w h in
      let (_, w₁_is) = now-eq-ok w told in
      let (w'_is, _) = exec-eq-ok _ w₁ h₁ in
      let found₁ : Table.find (has_task task_id) w₁.db.run_tasks ≡ some t =
        ap (λ (v : World). Table.find (has_task task_id) v.db.run_tasks) w₁_is ∙ found in
      (
        set_refs (t.artifact_refs ++ ref ∷ []) at t,
        ap (λ (v : World). Table.find (has_task task_id) v.db.run_tasks) w'_is
            ∙ updated task_id at (t.artifact_refs ++ ref ∷ []) w₁.db found₁,
        added ref t.artifact_refs fresh,
      )

  add_ref-Added :
      (w : World) {u : Unit} {w' : World}
      → Table.find (has_task task_id) w.db.run_tasks ≡ some t
      → add_ref task_id ref t.artifact_refs w ≡ ok u w'
      → Added task_id ref t w'.db
  unfolding add_ref
  add_ref-Added w {u} {w'} found h = elim (Bool-cases (any (λ r. r == ref) t.artifact_refs)) [
    | inl e ↦
        let (_, w'_is) = pure-eq-ok tt w (rw (e, add_ref) at h) in
        (
          t,
          ap (λ (v : World). Table.find (has_task task_id) v.db.run_tasks) w'_is ∙ found,
          record { there = e; kept = inl refl; distinct = λ d. d },
        )
    | inr e ↦ writes-Added w found e (rw (e, add_ref) at h)
  ]

-- A reference is added once: where it succeeds, the task was there and still is, the artifact is among
-- its references, the other ones stay in their order, and no reference stands twice if none did.
pub add_task_artifact_ref-Adds :
    (task_id ref : String) (w : World) {u : Unit} {w' : World}
    → add_task_artifact_ref task_id ref w ≡ ok u w'
    → (t : Task) × (t' : Task) × (Table.find (has_task task_id) w.db.run_tasks ≡ some t)
      × (Table.find (has_task task_id) w'.db.run_tasks ≡ some t')
      × Adds ref t.artifact_refs t'.artifact_refs
unfolding add_task_artifact_ref
add_task_artifact_ref-Adds task_id ref w h =
    let (_, w₁, asked, h₁) = bind-eq-ok _ _ w h in
    let (_, w₁_is) = refuse_if-eq-ok _ _ w asked in
    let (_, w₂, asked', h₂) = bind-eq-ok _ _ w₁ h₁ in
    let (_, w₂_is) = refuse_if-eq-ok _ _ w₁ asked' in
    let (found, w₃, read, h₃) = bind-eq-ok _ _ w₂ h₂ in
    let (found_is, w₃_is) = query-eq-ok _ w₂ read in
    let (t, w₄, scanned, h₄) = bind-eq-ok _ _ w₃ h₃ in
    let (there, w₄_is) = row-eq-ok _ w₃ scanned in
    let row : Table.find (has_task task_id) w.db.run_tasks ≡ some t =
      sym (ap (λ (v : World). Table.find (has_task task_id) v.db.run_tasks) (w₂_is ∙ w₁_is))
      ∙ sym found_is
      ∙ there in
    let db₄ : w₄.db ≡ w.db =
      ap (λ (v : World). v.db) w₄_is
      ∙ ap (λ (v : World). v.db) w₃_is
      ∙ ap (λ (v : World). v.db) (w₂_is ∙ w₁_is) in
    let (t', found', adds) =
      add_ref-Added task_id ref w₄
        (ap (λ (d : Db). Table.find (has_task task_id) d.run_tasks) db₄ ∙ row) h₄ in
    (t, t', row, found', adds)
