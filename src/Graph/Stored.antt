-- ===== src/Graph/Stored.antt =====
-- internal/graph/store.go: what a graph that was saved is read back as.
use nomici_orchestrator.Common.{
  String, ◌==◌, eq_iff, eq_refl, ◌≡◌, refl, sym, ◌∙◌, ap, subst, true, false, none, some, List, [],
  ◌∷◌, ◌++◌, arith, any, is_empty, map-eq-some, ◌⊎◌, inl, inr, Bool-cases, Option,
}
use nomici_orchestrator.Common.Table
use nomici_orchestrator.Common.Table.Laws.{insert-eq-some}
use nomici_orchestrator.Graph.Types.{Snapshot}
use nomici_orchestrator.Graph.Encoding.{unmarshal}
use nomici_orchestrator.Graph.Encoded.{ir_read_back, unmarshal-marshal}
use nomici_orchestrator.Graph.Snapshots.{
  Codec, clash, insert_snapshot, row_of, save, has_id, scan_snapshot, get, returned,
}
use nomici_orchestrator.Store.Rows.{GraphSnapshot}
use nomici_orchestrator.Store.{
  Db, World, Error, Outcome, Exec, ok, err, driver, next, row, ◌>>=◌, refuse_if, query,
}
use nomici_orchestrator.Store.Inversion.{bind-eq-ok, refuse_if-eq-ok, exec_insert-eq-ok}
use nomici_orchestrator.Store.Steps.{bind-err, refuse_if-step, query-step}

find-append_new :
    (id : String) (rs : List GraphSnapshot) (s : GraphSnapshot)
    → any (has_id id) rs ≡ false
    → has_id id s ≡ true
    → Table.find (has_id id) (rs ++ s ∷ []) ≡ some s
unfolding Table.find
find-append_new id [] s h e = rw e refl
find-append_new id (r ∷ rs) s h e = ground (arith, find-append_new id rs s)

find-append_other :
    (id : String) (rs : List GraphSnapshot) (s : GraphSnapshot)
    → has_id id s ≡ false
    → Table.find (has_id id) (rs ++ s ∷ []) ≡ Table.find (has_id id) rs
unfolding Table.find
find-append_other id [] s e = rw e refl
find-append_other id (r ∷ rs) s e = ground (arith, find-append_other id rs s)

clash-has_id :
    (s : GraphSnapshot) (rs : List GraphSnapshot)
    → any (clash s) rs ≡ false
    → any (has_id s.snapshot_id) rs ≡ false
clash-has_id s [] h = refl
clash-has_id s (r ∷ rs) h = ground (
  arith,
  clash-has_id s rs,
  eq_iff s.snapshot_id r.snapshot_id,
  eq_iff r.snapshot_id s.snapshot_id,
)

-- what a call returned, without the world that it left
abbrev pub answer : {A : Type 0} → Outcome A → Error ⊎ A
answer (ok a w) = inr a
answer (err e w) = inl e

module _ (codec : Codec) where
  -- The graphs after a save are the graphs before it and the one that was saved, under a new identifier.
  save-eq-ok :
      (s : Snapshot) (w : World) {u : Unit} {w' : World}
      → save codec s w ≡ ok u w'
      → (any (clash (row_of codec s)) w.db.graph_snapshots ≡ false)
        × (w'.db.graph_snapshots ≡ w.db.graph_snapshots ++ row_of codec s ∷ [])
  unfolding save insert_snapshot
  save-eq-ok s w h =
      let (_, w₁, passed, h₁) = bind-eq-ok _ _ w h in
      let same : w₁ ≡ w = (refuse_if-eq-ok _ _ w passed).1 in
      let (db, inserted, after) = exec_insert-eq-ok (insert_snapshot (row_of codec s)) w₁ h₁ in
      let (rows, new, is) =
        map-eq-some _ (Table.insert clash (row_of codec s) w₁.db.graph_snapshots) inserted in
      let (free, rows_are) = insert-eq-some clash (row_of codec s) w₁.db.graph_snapshots new in
      (
        subst (λ (x : World). any (clash (row_of codec s)) x.db.graph_snapshots ≡ false) same free,
        ap (λ (x : World). x.db.graph_snapshots) after
            ∙ sym (ap (λ (d : Db). d.graph_snapshots) is)
            ∙ rows_are
            ∙ ap (λ (x : World). x.db.graph_snapshots ++ row_of codec s ∷ []) same,
      )

  get-step :
      (id : String) (w : World)
      → is_empty id ≡ false
      → w.env.fails w.tick ≡ false
      → get codec id w ≡ scan_snapshot codec (Table.find (has_id id) w.db.graph_snapshots) (next w)
  unfolding get
  get-step id w named goes = refuse_if-step w (is_empty id) _ _ named ∙ query-step w goes _ _

  get-driver :
      (id : String) (w : World)
      → is_empty id ≡ false
      → w.env.fails w.tick ≡ true
      → get codec id w ≡ err driver (next w)
  unfolding get query
  get-driver id w named stops =
      refuse_if-step w (is_empty id) _ _ named ∙ bind-err (query _) _ w (rw stops refl)

  scan_snapshot-row_of :
      (s : Snapshot) (w : World)
      → codec.parse_time s.created_at ≡ some s.created_at
      → scan_snapshot codec (some (row_of codec s)) w
        ≡ ok (record s { ir = ir_read_back codec.values s.ir }) w
  unfolding scan_snapshot row ◌>>=◌
  scan_snapshot-row_of s w timed = rw (timed, unmarshal-marshal codec.values s.ir) refl

  answer-returned :
      {A B : Type 0} (e : Error) (o : Option A) (k : A → Exec B) (w w' : World)
      → ((a : A) → answer (k a w) ≡ answer (k a w'))
      → answer ((returned e o >>= k) w) ≡ answer ((returned e o >>= k) w')
  unfolding ◌>>=◌
  answer-returned e none k w w' same = refl
  answer-returned e (some a) k w w' same = same a

  answer-scan_snapshot :
      (o : Option GraphSnapshot) (w w' : World)
      → answer (scan_snapshot codec o w) ≡ answer (scan_snapshot codec o w')
  unfolding scan_snapshot row ◌>>=◌
  answer-scan_snapshot none w w' = refl
  answer-scan_snapshot (some r) w w' =
      answer-returned _ (codec.parse_time r.created_at) _ w w'
        (λ created_at. answer-returned _ (unmarshal codec.values r.ir_json) _ w w' (λ ir. refl))

  answer-get :
      (id : String) (w : World) (db : Db)
      → Table.find (has_id id) w.db.graph_snapshots ≡ Table.find (has_id id) db.graph_snapshots
      → answer (get codec id w) ≡ answer (get codec id (record w { db = db }))
  unfolding get ◌>>=◌ refuse_if
  answer-get id w db same = elim (Bool-cases (is_empty id)) [
    | inl e ↦ rw e refl
    | inr e ↦ elim (Bool-cases (w.env.fails w.tick)) [
      | inl f ↦
          ap answer (get-driver id w e f)
          ∙ ap answer (sym (get-driver id (record w { db = db }) e f))
      | inr f ↦
          ap answer (get-step id w e f)
          ∙ (ap (λ o. answer (scan_snapshot codec o (next w))) same
              ∙ (answer-scan_snapshot _ _ _
                  ∙ ap answer (sym (get-step id (record w { db = db }) e f))))
    ]
  ]

  -- Get reads a graph that Save kept back field by field, and its graph from the JSON of it: all of the
  -- models, runtimes, agents and edges as they were, up to the values of `capabilities`, each of which
  -- is what encoding/json makes of it. For every other identifier it returns what it would have
  -- returned without the save, errors included. The condition is that the graph has an identifier, that
  -- the read does not fail, and that time.Parse reads the time of the graph as it was formatted.
  pub get-save :
      (s : Snapshot) (w : World) {u : Unit} {w' : World}
      → save codec s w ≡ ok u w'
      → is_empty s.snapshot_id ≡ false
      → w'.env.fails w'.tick ≡ false
      → codec.parse_time s.created_at ≡ some s.created_at
      → (get codec s.snapshot_id w'
          ≡ ok (record s { ir = ir_read_back codec.values s.ir }) (next w'))
        × ((id : String)
            → s.snapshot_id == id ≡ false
            → answer (get codec id w') ≡ answer (get codec id (record w' { db = w.db })))
  get-save s w {u} {w'} saved named goes timed =
      let (free, rows) = save-eq-ok s w saved in
      let found : Table.find (has_id s.snapshot_id) w'.db.graph_snapshots ≡ some (row_of codec s) =
        rw rows (
          find-append_new s.snapshot_id w.db.graph_snapshots (row_of codec s)
            (clash-has_id (row_of codec s) w.db.graph_snapshots free) (eq_refl s.snapshot_id)) in
      (
        get-step s.snapshot_id w' named goes
            ∙ (ap (λ o. scan_snapshot codec o (next w')) found
                ∙ scan_snapshot-row_of s (next w') timed),
        λ id other.
            answer-get id w' w.db
              (rw rows (find-append_other id w.db.graph_snapshots (row_of codec s) other)),
      )
