-- ===== src/Graph/Snapshots.antt =====
-- internal/graph/store.go: the compiled graphs that are kept, each as a row with the JSON of its graph.
use mathlib.Core.Option
use nomici_orchestrator.Common.{String, ◌==◌, Bool, true, Option, none, some, is_empty, str_lt}
use nomici_orchestrator.Common.Table
use nomici_orchestrator.Graph.Types.{Snapshot}
use nomici_orchestrator.Graph.Encoding.{Values, marshal_fails, marshal, unmarshal}
use nomici_orchestrator.Store.Rows.{GraphSnapshot}
use nomici_orchestrator.Store.{
  Db, Error, required, external, Exec, pure, raise, exec_insert, query, refuse_if, row, ◌>>=◌, ◌>>◌,
}

-- A time is kept as the RFC 3339 text that it is formatted to. `parse_time` is time.Parse on a text, as
-- the text of the time that it read, where `none` is its error.
pub record Codec : Type 0 where
  pub values : Values
  pub parse_time : String → Option String

abbrev pub clash : GraphSnapshot → GraphSnapshot → Bool
clash a b = a.snapshot_id == b.snapshot_id

unfoldable pub insert_snapshot : GraphSnapshot → Db → Option Db
insert_snapshot s db =
    Option.map (λ rows. record db { graph_snapshots = rows })
      (Table.insert clash s db.graph_snapshots)

abbrev pub has_id : String → GraphSnapshot → Bool
has_id snapshot_id s = s.snapshot_id == snapshot_id

-- a value, or the error of the function that did not return it
abbrev pub returned : {A : Type 0} → Error → Option A → Exec A
returned e none = raise e
returned e (some a) = pure a

module _ (codec : Codec) where
  -- the values of the INSERT
  abbrev pub row_of : Snapshot → GraphSnapshot
  row_of snapshot = record {
    snapshot_id = snapshot.snapshot_id;
    schema_version = snapshot.schema_version;
    project_id = snapshot.project_id;
    source_hash = snapshot.source_hash;
    ir_json = marshal codec.values snapshot.ir;
    created_at = snapshot.created_at;
  }

  unfoldable pub save : Snapshot → Exec Unit
  save snapshot = do
    refuse_if (marshal_fails codec.values snapshot.ir) (external "marshal graph IR")
    exec_insert (insert_snapshot (row_of snapshot))

  unfoldable pub scan_snapshot : Option GraphSnapshot → Exec Snapshot
  scan_snapshot found = do
    scanned ← row found
    created_at ←
        returned (external "parse graph snapshot time") (codec.parse_time scanned.created_at)
    ir ← returned (external "decode graph IR") (unmarshal codec.values scanned.ir_json)
    pure (record {
      snapshot_id = scanned.snapshot_id;
      schema_version = scanned.schema_version;
      project_id = scanned.project_id;
      created_at = created_at;
      source_hash = scanned.source_hash;
      ir = ir;
    })

  -- ORDER BY created_at DESC LIMIT 1
  unfoldable pub latest : Exec Snapshot
  unfolding scan_snapshot
  latest = do
    found ← query (λ db.
        Table.find (λ _. true)
          (Table.order_by (λ a b. str_lt b.created_at a.created_at) db.graph_snapshots))
    scan_snapshot found

  unfoldable pub get : String → Exec Snapshot
  unfolding scan_snapshot
  get snapshot_id = do
    refuse_if (is_empty snapshot_id) (required "snapshot_id")
    found ← query (λ db. Table.find (has_id snapshot_id) db.graph_snapshots)
    scan_snapshot found
