-- ===== src/Uploads/Records.antt =====
-- internal/uploads/store.go: the operations on uploads. A limit that is not positive is 0 here.
use mathlib.Core.Option
use nomici_orchestrator.Common.{
  ℕ, String, ◌==◌, Bool, ◌||◌, Option, List, take, is_empty, str_lt, ◌=ℕ=◌, if◌then◌else◌,
}
use nomici_orchestrator.Common.Table
use nomici_orchestrator.Store.{
  Db, required, Exec, pure, now, new_id, exec_insert, query, refuse_if, ◌>>=◌, ◌>>◌,
}
use nomici_orchestrator.Uploads.Types.{Upload, CreateRequest, status_ready}

abbrev pub clash : Upload → Upload → Bool
clash a b = a.upload_id == b.upload_id

unfoldable pub insert_upload : Upload → Db → Option Db
insert_upload u db =
    Option.map (λ rows. record db { upload_records = rows })
      (Table.insert clash u db.upload_records)

unfoldable pub create : CreateRequest → Exec Upload
create request = do
  refuse_if (is_empty request.session_id) (required "session_id")
  refuse_if (is_empty request.run_id) (required "run_id")
  refuse_if (is_empty request.filename) (required "filename")
  refuse_if (is_empty request.path) (required "path")
  at ← now
  upload_id ← new_id "upload"
  let upload : Upload = record {
    upload_id = upload_id;
    session_id = request.session_id;
    run_id = request.run_id;
    task_id = request.task_id;
    filename = request.filename;
    path = request.path;
    size_bytes = request.size_bytes;
    content_type = request.content_type;
    status = if is_empty request.status then status_ready else request.status;
    metadata = if is_empty request.metadata then "{}" else request.metadata;
    created_at = at;
  }
  exec_insert (insert_upload upload)
  pure upload

unfoldable pub list : String → ℕ → Exec (List Upload)
list session_id limit = query (λ db. take (if limit =ℕ= 0 then 50 else limit) (
    Table.order_by (λ a b. str_lt b.created_at a.created_at)
      (Table.select (λ u. is_empty session_id || u.session_id == session_id) db.upload_records)))
