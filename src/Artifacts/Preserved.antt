-- ===== src/Artifacts/Preserved.antt =====
-- internal/artifacts/store.go: every operation keeps the history of the artifacts.
use nomici_orchestrator.Common.{
  String, eq_iff, ◌≡◌, refl, sym, ◌∙◌, ap, subst, some, List, [], ◌∷◌, arith, is_empty,
}
use nomici_orchestrator.Common.Table
use nomici_orchestrator.Common.Table.Finding.{find-test}
use nomici_orchestrator.Store.{
  Db, World, ok, final, Exec, pure, new_id, exec, exec_insert, ◌>>=◌, ◌>>◌,
}
use nomici_orchestrator.Store.Moves.{
  Moves, Preorder, Carries, Carries-Preorder, Moves-pure, Moves-query, Moves-row, Moves-bind,
  Moves-exec, Moves-refuse_if, Moves-now, Moves-new_id,
}
use nomici_orchestrator.Store.Leads.{
  Leads, Moves-Leads, bind-Leads, now-Leads, refuse_if-Leads, exec_insert-Leads,
}
use nomici_orchestrator.Store.Inversion.{read-eq-ok, exec-eq-ok, exec_insert-eq-ok}
use nomici_orchestrator.Artifacts.Types.{Artifact, CreateRequest}
use nomici_orchestrator.Artifacts.Records.{
  has_id, insert_artifact, update_artifact, new_artifact, record_revision, revised, get, create,
  revise, set_review_state, diff_preview,
}
use nomici_orchestrator.Artifacts.History.{
  IsHistory, IsAhead, update-IsHistory, update-IsAhead, insert_revision-IsHistory,
  insert_artifact-IsHistory,
}

abbrev Keeps : Db → Db → Type 0
Keeps = Carries IsHistory

order : Preorder Keeps
order = Carries-Preorder IsHistory

-- what is to be shown may use that the history is kept so far
assuming :
    {A : Type 0} (m : Exec A) (w : World) → (IsHistory w.db → Leads Keeps m w) → Leads Keeps m w
assuming m w k = record { to = λ h. (k h).to h }

get-Moves : (id : String) → Moves Keeps (get id)
unfolding get
get-Moves id = Moves-bind order _ _ (Moves-query order _) (λ o. Moves-row order o)

get-eq-ok :
    (id : String) (w : World) {a : Artifact} {w' : World}
    → get id w ≡ ok a w'
    → (Table.find (has_id id) w.db.artifact_records ≡ some a) × (w'.db ≡ w.db)
unfolding get
get-eq-ok id w h = let (found, same) = read-eq-ok _ w h in (found, ap (λ (x : World). x.db) same)

new_id-db :
    (prefix : String) (w : World) {id : String} {w' : World}
    → new_id prefix w ≡ ok id w'
    → w'.db ≡ w.db
unfolding new_id
new_id-db prefix w h = ground arith

-- A record is written of an artifact that is ahead of its records.
record_revision-Leads :
    (a : Artifact) (diff : String) (w : World)
    → IsAhead a w.db.artifact_revision_records
    → Table.find (has_id a.artifact_id) w.db.artifact_records ≡ some a
    → Leads Keeps (record_revision a diff) w
unfolding record_revision
record_revision-Leads a diff w ahead there =
    bind-Leads order (new_id "artifactrev") _ w (Moves-Leads (Moves-new_id order _) w)
      (λ revision_id w₁ drawn. now-Leads order _ w₁ (λ at w₂ same.
        let db : w₂.db ≡ w.db = same ∙ new_id-db "artifactrev" w drawn in
        exec_insert-Leads order _ w₂ (λ b inserted h.
          insert_revision-IsHistory a diff revision_id at w₂.db b
            (subst (λ (d : Db). IsAhead a d.artifact_revision_records) (sym db) ahead)
            (subst (λ (d : Db). Table.find (has_id a.artifact_id) d.artifact_records ≡ some a)
              (sym db) there)
            inserted h)))

-- the artifact that a read finds after an update is ahead of its records
get-IsAhead :
    (id preview at : String) (a : Db) (w w₁ : World) {after : Artifact}
    → IsHistory a
    → w.db ≡ update_artifact id (revised preview at) a
    → get id w ≡ ok after w₁
    → IsAhead after w₁.db.artifact_revision_records
      × (Table.find (has_id after.artifact_id) w₁.db.artifact_records ≡ some after)
unfolding update_artifact
get-IsAhead id preview at a w w₁ {after} h is got =
    let (found, same) = get-eq-ok id w got in
    let found_in : Table.find (has_id id)
          (update_artifact id (revised preview at) a).artifact_records
        ≡ some after =
      subst (λ (d : Db). Table.find (has_id id) d.artifact_records ≡ some after) is found in
    let named : after.artifact_id ≡ id =
      (eq_iff after.artifact_id id).0 (find-test (has_id id) w.db.artifact_records found) in
    (
      subst (λ (d : Db). IsAhead after d.artifact_revision_records) (sym (same ∙ is))
          (update-IsAhead id (revised preview at) (λ x. refl) (λ x. omega arith) a
            (λ x. omega arith) h found_in),
      subst (λ (d : Db). Table.find (has_id after.artifact_id) d.artifact_records ≡ some after)
          (sym same) (ap (λ x. Table.find (has_id x) w.db.artifact_records) named ∙ found),
    )

-- what Revise does after the update
revised-Leads :
    (id preview at : String) (before : Artifact) (a : Db) (w : World)
    → IsHistory a
    → w.db ≡ update_artifact id (revised preview at) a
    → Leads Keeps
        (do
          after ← get id
          record_revision after (diff_preview before.preview after.preview)
          pure after)
        w
revised-Leads id preview at before a w h is =
    bind-Leads order (get id) _ w (Moves-Leads (get-Moves id) w) (λ after w₁ got.
      let (ahead, there) = get-IsAhead id preview at a w w₁ {after = after} h is got in
      bind-Leads order (record_revision after (diff_preview before.preview after.preview)) _ w₁
        (record_revision-Leads after _ w₁ ahead there)
        (λ _ w₂ done. Moves-Leads (Moves-pure order after) w₂))

revise-Leads : (id preview : String) (w : World) → Leads Keeps (revise id preview) w
unfolding revise
revise-Leads id preview w = refuse_if-Leads order (is_empty id) _ _ w (λ _.
    bind-Leads order (get id) _ w (Moves-Leads (get-Moves id) w) (λ before w₁ got.
      now-Leads order _ w₁ (λ at w₂ same. assuming _ w₂ (λ h.
        bind-Leads order (exec (update_artifact id (revised preview at))) _ w₂
          (Moves-Leads
            (Moves-exec order _
              (update-IsHistory id (revised preview at) (λ x. refl) (λ x. omega arith)))
            w₂)
          (λ _ w₃ done.
            revised-Leads id preview at before w₂.db w₃ h
              (ap (λ (x : World). x.db) (exec-eq-ok _ w₂ done).0))))))

create-Leads : (request : CreateRequest) (w : World) → Leads Keeps (create request) w
unfolding create new_artifact
create-Leads request w = refuse_if-Leads order (is_empty request.session_id) _ _ w (λ _.
    refuse_if-Leads order (is_empty request.run_id) _ _ w (λ _.
      refuse_if-Leads order (is_empty request.artifact_type) _ _ w (λ _.
        now-Leads order _ w (λ at w₁ _.
          bind-Leads order (new_id "artifact") _ w₁ (Moves-Leads (Moves-new_id order _) w₁)
            (λ id w₂ _. assuming _ w₂ (λ h.
              bind-Leads order (exec_insert (insert_artifact (new_artifact request at id))) _ w₂
                (exec_insert-Leads order _ w₂ (λ b inserted k.
                  (insert_artifact-IsHistory (new_artifact request at id) w₂.db b inserted k).0))
                (λ _ w₃ done. recorded request at id w₂ w₃ h done)))))))
  where
    recorded :
        (request : CreateRequest) (at id : String) (w₂ w₃ : World) {u : Unit}
        → IsHistory w₂.db
        → exec_insert (insert_artifact (new_artifact request at id)) w₂ ≡ ok u w₃
        → Leads Keeps
            (record_revision (new_artifact request at id) "" >>= λ _.
              pure (new_artifact request at id))
            w₃
    recorded request at id w₂ w₃ h done =
        let (b, inserted, w₃_is) = exec_insert-eq-ok _ w₂ done in
        let (_, ahead, there) =
          insert_artifact-IsHistory (new_artifact request at id) w₂.db b inserted h in
        let db : b ≡ w₃.db = sym (ap (λ (x : World). x.db) w₃_is) in
        bind-Leads order (record_revision (new_artifact request at id) "") _ w₃
          (record_revision-Leads (new_artifact request at id) "" w₃
            (subst (λ (d : Db). IsAhead (new_artifact request at id) d.artifact_revision_records) db
              ahead)
            (subst
              (λ (d : Db).
                Table.find (has_id id) d.artifact_records ≡ some (new_artifact request at id))
              db there))
          (λ _ w₄ _. Moves-Leads (Moves-pure order _) w₄)

set_review_state-Moves : (id state : String) → Moves Keeps (set_review_state id state)
unfolding set_review_state
set_review_state-Moves id state = Moves-bind order _ _ (Moves-refuse_if order _ _) (λ _.
    Moves-bind order _ _ (Moves-now order) (λ at.
      Moves-bind order _ _
        (Moves-exec order _ (update-IsHistory id _ (λ x. refl) (λ x. omega arith)))
        (λ _. get-Moves id)))

-- what may be done to the artifacts
pub data Operation : Type 0 where
  creates : CreateRequest → Operation
  revises : String → String → Operation
  reviews : String → String → Operation

-- The world after an operation, whether it returned or failed.
abbrev pub after : Operation → World → World
after (creates request) w = final (create request w)
after (revises id preview) w = final (revise id preview w)
after (reviews id state) w = final (set_review_state id state w)

abbrev pub after_all : List Operation → World → World
after_all [] w = w
after_all (op ∷ ops) w = after_all ops (after op w)

after-IsHistory : (op : Operation) (w : World) → IsHistory w.db → IsHistory (after op w).db
after-IsHistory (creates request) w h = (create-Leads request w).to h
after-IsHistory (revises id preview) w h = (revise-Leads id preview w).to h
after-IsHistory (reviews id state) w h = (set_review_state-Moves id state).at w h

-- From a database that has the history of its artifacts, such as one without artifacts, any sequence of
-- Create, Revise and SetReviewState leads to one that has it, whichever statements fail on the way:
-- the records of an artifact are in the order of its revisions, none of them twice or later than the
-- artifact.
pub after_all-IsHistory :
    (ops : List Operation) (w : World) → IsHistory w.db → IsHistory (after_all ops w).db
after_all-IsHistory [] w h = h
after_all-IsHistory (op ∷ ops) w h = after_all-IsHistory ops (after op w) (after-IsHistory op w h)
