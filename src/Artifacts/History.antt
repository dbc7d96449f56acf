-- ===== src/Artifacts/History.antt =====
-- internal/artifacts/store.go: the history of an artifact, whichever statement fails.
use mathlib.Core.Option
use mathlib.Core.Option.{some-injective}
use nomici_orchestrator.Common.{
  ◌≤◌, ◌<◌, String, ◌==◌, eq_iff, eq_refl, ==_comm, ◌≡◌, refl, sym, ◌∙◌, ap, subst, true, false,
  none, some, List, [], ◌∷◌, ◌++◌, arith, any, All, All-append, map-eq-some, Bool-cases, inl, inr,
  if◌then◌else◌,
}
use nomici_orchestrator.Common.Table
use nomici_orchestrator.Common.Table.{NoClash}
use nomici_orchestrator.Common.Table.Laws.{NoClash-insert, NoClash-update, insert-eq-some, All-map}
use nomici_orchestrator.Common.Table.Keyed.{find-added, find-refreshed}
use nomici_orchestrator.Common.Table.Finding.{find-none, find-test}
use nomici_orchestrator.Store.{Db}
use nomici_orchestrator.Artifacts.Types.{Artifact, Revision}
use nomici_orchestrator.Artifacts.Records.{
  clash, revision_clash, has_id, insert_artifact, insert_revision, update_artifact, new_revision,
}

-- The revision is one that an artifact has had.
abbrev pub IsRecorded : List Artifact → Revision → Type 0
IsRecorded artifacts r =
    (a : Artifact) × (Table.find (has_id r.artifact_id) artifacts ≡ some a)
    × (r.revision ≤ a.revision)

-- Later records of an artifact have a greater revision.
abbrev pub IsAfter : Revision → Revision → Type 0
IsAfter r s = s.artifact_id == r.artifact_id ≡ true → r.revision < s.revision

abbrev pub Increasing : List Revision → Type 0
Increasing [] = Unit
Increasing (r ∷ rs) = All (IsAfter r) rs × Increasing rs

-- No two artifacts have the same identifier. Each record of a revision is of an artifact that is there,
-- and of no later revision than the artifact has. The records of an artifact are in the order of its
-- revisions, with no revision twice.
pub record IsHistory (db : Db) : Type 0 where
  pub keys : NoClash clash db.artifact_records
  pub recorded : All (IsRecorded db.artifact_records) db.artifact_revision_records
  pub increasing : Increasing db.artifact_revision_records

-- The records of the artifact are of revisions before its own.
abbrev pub IsAhead : Artifact → List Revision → Type 0
IsAhead a = All (λ r. a.artifact_id == r.artifact_id ≡ true → r.revision < a.revision)

abbrev by_id : Artifact → String
by_id a = a.artifact_id

clash_comm : (a b : Artifact) → clash a b ≡ clash b a
clash_comm a b = ==_comm a.artifact_id b.artifact_id

module _ (id : String) (f : Artifact → Artifact)
    (kept : (a : Artifact) → (f a).artifact_id ≡ a.artifact_id)
    (grows : (a : Artifact) → a.revision ≤ (f a).revision) where
  update-IsRecorded :
      (artifacts : List Artifact) (r : Revision)
      → IsRecorded artifacts r
      → IsRecorded (Table.update (has_id id) f artifacts) r
  update-IsRecorded artifacts r (a, found, older) =
      let moved = find-refreshed by_id id r.artifact_id f artifacts kept in
      elim (Bool-cases (id == r.artifact_id)) [
        | inl e ↦
            let more = grows a in (f a, moved ∙ rw (e, found) refl, omega (arith, older, more))
        | inr e ↦ (a, moved ∙ rw (e, found) refl, older)
      ]

  pub update-IsHistory : (db : Db) → IsHistory db → IsHistory (update_artifact id f db)
  unfolding update_artifact
  update-IsHistory db h = record {
    keys = NoClash-update clash (has_id id) f apart db.artifact_records h.keys;
    recorded =
        All-map _ _ (update-IsRecorded db.artifact_records) db.artifact_revision_records h.recorded;
    increasing = h.increasing;
  }
    where
      same_id : (a : Artifact) → (Table.touch (has_id id) f a).artifact_id ≡ a.artifact_id
      same_id a = elim (Bool-cases (has_id id a)) [ inl e ↦ rw e (kept a) | inr e ↦ rw e refl ]

      apart :
          (a b : Artifact)
          → clash a b ≡ false
          → clash (Table.touch (has_id id) f a) (Table.touch (has_id id) f b) ≡ false
      apart a b e = rw (same_id a, same_id b) e

  -- the artifact that is found after an update is ahead of its records, if the update raised it
  pub update-IsAhead :
      (db : Db) {after : Artifact}
      → ((a : Artifact) → a.revision < (f a).revision)
      → IsHistory db
      → Table.find (has_id id) (update_artifact id f db).artifact_records ≡ some after
      → IsAhead after db.artifact_revision_records
  unfolding update_artifact
  update-IsAhead db {after} raises h found =
      let moved = find-refreshed by_id id id f db.artifact_records kept in
      let is : Option.map f (Table.find (has_id id) db.artifact_records) ≡ some after =
        ap
          (λ b.
            if b
            then Option.map f (Table.find (has_id id) db.artifact_records)
            else Table.find (has_id id) db.artifact_records)
          (sym (eq_refl id))
        ∙ sym moved
        ∙ found in
      let (before, there, same) = map-eq-some f _ is in
      All-map _ _ (ahead before there same) db.artifact_revision_records h.recorded
    where
      ahead :
          (before : Artifact)
          → Table.find (has_id id) db.artifact_records ≡ some before
          → f before ≡ after
          → (r : Revision) → IsRecorded db.artifact_records r
          → after.artifact_id == r.artifact_id ≡ true
          → r.revision < after.revision
      ahead before there same r (a, found_r, older) e =
          let of_after : after.artifact_id ≡ r.artifact_id =
            (eq_iff after.artifact_id r.artifact_id).0 e in
          let of_before : before.artifact_id ≡ id =
            (eq_iff before.artifact_id id).0 (find-test (has_id id) db.artifact_records there) in
          let is_id : r.artifact_id ≡ id =
            sym of_after ∙ (ap by_id (sym same) ∙ (kept before ∙ of_before)) in
          let both : some a ≡ some before =
            sym found_r ∙ (ap (λ x. Table.find (has_id x) db.artifact_records) is_id ∙ there) in
          let level : a.revision ≡ before.revision =
            ap (λ (x : Artifact). x.revision) (some-injective a before both) in
          let raised = raises before in
          let more : (f before).revision ≡ after.revision =
            ap (λ (x : Artifact). x.revision) same in
          omega (arith, older, level, raised, more)

Increasing-append :
    (rs : List Revision) (r : Revision)
    → All (λ x. IsAfter x r) rs
    → Increasing rs
    → Increasing (rs ++ r ∷ [])
Increasing-append [] r h k = (tt, tt)
Increasing-append (x ∷ rs) r h k =
    (All-append _ rs (r ∷ []) k.0 (h.0, tt), Increasing-append rs r h.1 k.1)

-- A record of the artifact as it is continues the history, if the artifact is ahead of its records.
pub insert_revision-IsHistory :
    (a : Artifact) (diff revision_id at : String) (db b : Db)
    → IsAhead a db.artifact_revision_records
    → Table.find (has_id a.artifact_id) db.artifact_records ≡ some a
    → insert_revision (new_revision a diff revision_id at) db ≡ some b
    → IsHistory db
    → IsHistory b
unfolding insert_revision new_revision
insert_revision-IsHistory a diff revision_id at db b ahead there h k =
    let (rows, inserted, same) = map-eq-some _ _ h in
    let (_, rows_are) =
      insert-eq-some revision_clash (new_revision a diff revision_id at)
        db.artifact_revision_records inserted in
    rw (← same, rows_are)
      (record {
        keys = k.keys;
        recorded =
            All-append _ db.artifact_revision_records _ k.recorded ((a, there, omega arith), tt);
        increasing = Increasing-append db.artifact_revision_records _ ahead k.increasing;
      })

free-has_id :
    (a : Artifact) (rs : List Artifact)
    → any (clash a) rs ≡ false
    → any (has_id a.artifact_id) rs ≡ false
free-has_id a [] h = refl
free-has_id a (x ∷ rs) h = ground (arith, free-has_id a rs, ==_comm x.artifact_id a.artifact_id)

-- A record of a revision is of no artifact that is new.
recorded-other :
    (a : Artifact) (rs : List Artifact) (r : Revision)
    → any (has_id a.artifact_id) rs ≡ false
    → IsRecorded rs r
    → a.artifact_id == r.artifact_id ≡ false
recorded-other a rs r free (x, found, older) = elim (Bool-cases (a.artifact_id == r.artifact_id)) [
  | inl e ↦
      let gone : Table.find (has_id r.artifact_id) rs ≡ none =
        subst (λ i. Table.find (has_id i) rs ≡ none) ((eq_iff a.artifact_id r.artifact_id).0 e)
          (find-none (has_id a.artifact_id) rs free) in
      absurd (some≢none (sym found ∙ gone))
  | inr e ↦ e
]
  where
    some≢none : {y : Artifact} → some y ≡ none → ⊥
    some≢none k = ground arith

-- A new artifact has no record yet.
pub insert_artifact-IsHistory :
    (a : Artifact) (db b : Db)
    → insert_artifact a db ≡ some b
    → IsHistory db
    → IsHistory b
      × IsAhead a b.artifact_revision_records
      × (Table.find (has_id a.artifact_id) b.artifact_records ≡ some a)
unfolding insert_artifact
insert_artifact-IsHistory a db b h k =
    let (rows, inserted, same) = map-eq-some _ _ h in
    let (free, rows_are) = insert-eq-some clash a db.artifact_records inserted in
    let free_id = free-has_id a db.artifact_records free in
    let keys : NoClash clash (db.artifact_records ++ a ∷ []) =
      subst (NoClash clash) rows_are
        (NoClash-insert clash clash_comm a db.artifact_records inserted k.keys) in
    rw (← same, rows_are)
      (
        record {
          keys = keys;
          recorded = All-map _ _ (still free_id) db.artifact_revision_records k.recorded;
          increasing = k.increasing;
        },
        All-map _ _ (λ r h. ahead free_id r h) db.artifact_revision_records k.recorded,
        find-added by_id a.artifact_id db.artifact_records a free_id
            ∙ ap (λ b. if b then some a else Table.find (has_id a.artifact_id) db.artifact_records)
                (eq_refl a.artifact_id),
      )
  where
    still :
        any (has_id a.artifact_id) db.artifact_records ≡ false
        → (r : Revision) → IsRecorded db.artifact_records r
        → IsRecorded (db.artifact_records ++ a ∷ []) r
    still free r (x, found, older) = (
      x,
      find-added by_id r.artifact_id db.artifact_records a free
          ∙ rw (recorded-other a db.artifact_records r free (x, found, older)) found,
      older,
    )

    ahead :
        any (has_id a.artifact_id) db.artifact_records ≡ false
        → (r : Revision) → IsRecorded db.artifact_records r
        → a.artifact_id == r.artifact_id ≡ true
        → r.revision < a.revision
    ahead free r h e = let no = recorded-other a db.artifact_records r free h in absurd (cc)
