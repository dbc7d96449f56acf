-- ===== src/Artifacts/Records.antt =====
-- internal/artifacts/store.go: the operations on artifacts. A limit that is not positive is 0 here.
use Prim.Native.String.{len, slice}
use mathlib.Core.Option
use nomici_orchestrator.Common.{
  ℕ, suc, String, ◌==◌, Bool, ◌||◌, Option, List, if◌then◌else◌, take, is_empty, trim_space, str_lt,
  ltb, ◌=ℕ=◌, ◌^+◌,
}
use nomici_orchestrator.Common.Table
use nomici_orchestrator.Store.{
  Db, required, Exec, pure, now, new_id, exec, exec_insert, query, refuse_if, row, ◌>>=◌, ◌>>◌,
}
use nomici_orchestrator.Artifacts.Types.{
  Artifact, Revision, CreateRequest, review_draft, review_approved, review_revised,
}

abbrev pub clash : Artifact → Artifact → Bool
clash a b = a.artifact_id == b.artifact_id

abbrev pub revision_clash : Revision → Revision → Bool
revision_clash a b = a.revision_id == b.revision_id

abbrev pub has_id : String → Artifact → Bool
has_id artifact_id a = a.artifact_id == artifact_id

unfoldable pub insert_artifact : Artifact → Db → Option Db
insert_artifact a db =
    Option.map (λ rows. record db { artifact_records = rows })
      (Table.insert clash a db.artifact_records)

unfoldable pub insert_revision : Revision → Db → Option Db
insert_revision r db =
    Option.map (λ rows. record db { artifact_revision_records = rows })
      (Table.insert revision_clash r db.artifact_revision_records)

-- an UPDATE of the artifact with an identifier
unfoldable pub update_artifact : String → (Artifact → Artifact) → Db → Db
update_artifact artifact_id f db = record db {
  artifact_records = Table.update (has_id artifact_id) f db.artifact_records;
}

unfoldable pub get : String → Exec Artifact
get artifact_id = do
  found ← query (λ db. Table.find (has_id artifact_id) db.artifact_records)
  row found

-- the revision that stands for an artifact as it is
unfoldable pub new_revision : Artifact → String → String → String → Revision
new_revision a diff revision_id at = record {
  revision_id = revision_id;
  artifact_id = a.artifact_id;
  session_id = a.session_id;
  run_id = a.run_id;
  task_id = a.task_id;
  revision = a.revision;
  review_state = a.review_state;
  path = a.path;
  preview = a.preview;
  diff_preview = diff;
  metadata = if is_empty a.metadata then "{}" else a.metadata;
  created_at = at;
}

-- recordRevision, of an artifact that is not nil
unfoldable pub record_revision : Artifact → String → Exec Unit
record_revision a diff = do
  revision_id ← new_id "artifactrev"
  at ← now
  exec_insert (insert_revision (new_revision a diff revision_id at))

unfoldable pub new_artifact : CreateRequest → String → String → Artifact
new_artifact request at artifact_id = record {
  artifact_id = artifact_id;
  session_id = request.session_id;
  run_id = request.run_id;
  task_id = request.task_id;
  artifact_type = request.artifact_type;
  title = if is_empty request.title then request.artifact_type else request.title;
  path = request.path;
  revision = if request.revision =ℕ= 0 then 1 else request.revision;
  review_state = if is_empty request.review_state then review_draft else request.review_state;
  preview = request.preview;
  metadata = if is_empty request.metadata then "{}" else request.metadata;
  created_at = at;
  updated_at = at;
}

unfoldable pub create : CreateRequest → Exec Artifact
create request = do
  refuse_if (is_empty request.session_id) (required "session_id")
  refuse_if (is_empty request.run_id) (required "run_id")
  refuse_if (is_empty request.artifact_type) (required "type")
  at ← now
  artifact_id ← new_id "artifact"
  let a = new_artifact request at artifact_id
  exec_insert (insert_artifact a)
  record_revision a ""
  pure a

-- The first 800 bytes of a longer text. Where the cut is within a character, its bytes are left out.
shortened : String → String
shortened text = if ltb 800 (len text) then slice text 0 800 ^+ "..." else text

unfoldable pub diff_preview : String → String → String
unfolding shortened
diff_preview before after =
    if trim_space before == trim_space after
    then "No preview changes."
    else "--- previous\n"
      ^+ shortened (trim_space before)
      ^+ "\n+++ current\n"
      ^+ shortened (trim_space after)

-- the UPDATE of Revise
abbrev pub revised : String → String → Artifact → Artifact
revised preview at a = record a {
  preview = preview;
  revision = suc a.revision;
  review_state = review_revised;
  updated_at = at;
}

unfoldable pub revise : String → String → Exec Artifact
revise artifact_id preview = do
  refuse_if (is_empty artifact_id) (required "artifact_id")
  before ← get artifact_id
  at ← now
  exec (update_artifact artifact_id (revised preview at))
  after ← get artifact_id
  record_revision after (diff_preview before.preview after.preview)
  pure after

unfoldable pub set_review_state : String → String → Exec Artifact
set_review_state artifact_id state = do
  refuse_if (is_empty artifact_id) (required "artifact_id")
  at ← now
  exec (
      update_artifact artifact_id (λ a. record a {
        review_state = if is_empty state then review_approved else state;
        updated_at = at;
      }))
  get artifact_id

unfoldable pub list : String → ℕ → Exec (List Artifact)
list session_id limit = query (λ db. take (if limit =ℕ= 0 then 50 else limit) (
    Table.order_by (λ a b. str_lt b.updated_at a.updated_at)
      (Table.select (λ a. is_empty session_id || a.session_id == session_id) db.artifact_records)))

unfoldable pub list_revisions : String → ℕ → Exec (List Revision)
list_revisions artifact_id limit = do
  refuse_if (is_empty artifact_id) (required "artifact_id")
  query (λ db. take (if limit =ℕ= 0 then 50 else limit) (
      Table.order_by (λ a b. ltb b.revision a.revision)
        (Table.select (λ r. r.artifact_id == artifact_id) db.artifact_revision_records)))
