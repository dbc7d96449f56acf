-- ===== src/SharedContext/Items.antt =====
-- internal/sharedcontext/store.go: the store of items and of snapshots. A limit that is not positive is
-- 0 here.
use mathlib.Core.Option
use nomici_orchestrator.Common.{
  ℕ, String, ◌==◌, Bool, ◌&&◌, ◌||◌, Option, List, if◌then◌else◌, take, is_empty, str_lt, ◌=ℕ=◌,
}
use nomici_orchestrator.Common.Table
use nomici_orchestrator.Store.{
  Db, required, Exec, pure, now, new_id, exec, exec_insert, query, refuse_if, ◌>>=◌, ◌>>◌,
}
use nomici_orchestrator.SharedContext.Types.{Item, Snapshot, status_active}
use nomici_orchestrator.SharedContext.Redaction.{Pattern, prepare_item, prepare_snapshot}

abbrev pub clash : Item → Item → Bool
clash a b = a.context_id == b.context_id

abbrev pub snapshot_clash : Snapshot → Snapshot → Bool
snapshot_clash a b = a.snapshot_id == b.snapshot_id

unfoldable pub insert_item : Item → Db → Option Db
insert_item item db =
    Option.map (λ rows. record db { context_items = rows })
      (Table.insert clash item db.context_items)

unfoldable pub insert_snapshot : Snapshot → Db → Option Db
insert_snapshot s db =
    Option.map (λ rows. record db { context_snapshots = rows })
      (Table.insert snapshot_clash s db.context_snapshots)

-- what SaveItem adds to an item that is prepared; a zero time is ""
abbrev pub stamped_item : Item → String → String → Item
stamped_item item context_id at =
    let created_at = if is_empty item.created_at then at else item.created_at in
    record item {
      context_id = context_id;
      created_at = created_at;
      updated_at = if is_empty item.updated_at then created_at else item.updated_at;
    }

-- SaveItem, which returns the item as it is changed in place
unfoldable pub save_item : List Pattern → Item → Exec Item
save_item patterns item = do
  prepared ← prepare_item patterns item
  context_id ← (if is_empty prepared.context_id then new_id "ctx" else pure prepared.context_id)
  at ← now
  let saved = stamped_item prepared context_id at
  exec_insert (insert_item saved)
  pure saved

-- SaveSnapshot, which returns the snapshot as it is changed in place
unfoldable pub save_snapshot : List Pattern → Snapshot → Exec Snapshot
save_snapshot patterns s = do
  prepared ← prepare_snapshot patterns s
  snapshot_id ←
      (if is_empty prepared.snapshot_id then new_id "ctxsnap" else pure prepared.snapshot_id)
  created_at ← (if is_empty prepared.created_at then now else pure prepared.created_at)
  let saved : Snapshot = record prepared { snapshot_id = snapshot_id; created_at = created_at }
  exec_insert (insert_snapshot saved)
  pure saved

unfoldable pub list_items : String → String → ℕ → Exec (List Item)
list_items project_id scope limit = query (λ db. take (if limit =ℕ= 0 then 20 else limit) (
    Table.order_by (λ a b. str_lt b.updated_at a.updated_at)
      (Table.select
        (λ i.
          i.status == status_active
          && (is_empty project_id || i.project_id == project_id)
          && (is_empty scope || i.scope == scope))
        db.context_items)))

unfoldable pub update_status : String → String → String → Db → Db
update_status context_id status at db = record db {
  context_items =
      Table.update (λ i. i.context_id == context_id)
        (λ i. record i { status = status; updated_at = at }) db.context_items;
}

unfoldable pub set_item_status : String → String → Exec Unit
set_item_status context_id status = do
  refuse_if (is_empty context_id) (required "context_id")
  refuse_if (is_empty status) (required "status")
  at ← now
  exec (update_status context_id status at)

unfoldable pub list_snapshots : String → ℕ → Exec (List Snapshot)
list_snapshots project_id limit = query (λ db. take (if limit =ℕ= 0 then 50 else limit) (
    Table.order_by (λ a b. str_lt b.created_at a.created_at)
      (Table.select (λ s. is_empty project_id || s.project_id == project_id) db.context_snapshots)))
