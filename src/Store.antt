-- ===== src/Store.antt =====
-- internal/store: the database that the stores share, and the actions that they run on it. A Go
-- function that may fail and writes to the database is an `Exec`: what it wrote before it failed
-- stays written, since the stores open no transaction.
pub mod Rows
pub mod Moves
pub mod Leads
pub mod Inversion
pub mod Steps
use nomici_orchestrator.Common.{
  ℕ, suc, String, Bool, Option, none, some, List, [], if◌then◌else◌, ◌^+◌,
}
use nomici_orchestrator.Providers.Types.{Profile}
use nomici_orchestrator.SharedContext.Types.{Item, Snapshot}
use nomici_orchestrator.Artifacts.Types.{Artifact, Revision}
use nomici_orchestrator.Memory.Types.{Proposal}
use nomici_orchestrator.Uploads.Types.{Upload}
use nomici_orchestrator.Chats.Types.{Thread, Message, Feedback}
use nomici_orchestrator.Store.Rows.{
  GraphSnapshot, Approval, Lock, Session, Task, CallRecord, Action, Event, Sandbox,
}

-- The tables of internal/store/migrations.go that the modelled stores use.
pub record Db : Type 0 where
  pub provider_profiles : List Profile
  pub approvals : List Approval
  pub workspace_locks : List Lock
  pub run_sessions : List Session
  pub run_tasks : List Task
  pub tool_call_records : List CallRecord
  pub blocked_actions : List Action
  pub trace_events : List Event
  pub sandbox_records : List Sandbox
  pub graph_snapshots : List GraphSnapshot
  pub context_items : List Item
  pub context_snapshots : List Snapshot
  pub artifact_records : List Artifact
  pub artifact_revision_records : List Revision
  pub memory_proposals : List Proposal
  pub upload_records : List Upload
  pub chat_threads : List Thread
  pub chat_messages : List Message
  pub chat_feedback : List Feedback

abbrev pub empty_db : Db
empty_db = record {
  provider_profiles = [];
  approvals = [];
  workspace_locks = [];
  run_sessions = [];
  run_tasks = [];
  tool_call_records = [];
  blocked_actions = [];
  trace_events = [];
  sandbox_records = [];
  graph_snapshots = [];
  context_items = [];
  context_snapshots = [];
  artifact_records = [];
  artifact_revision_records = [];
  memory_proposals = [];
  upload_records = [];
  chat_threads = [];
  chat_messages = [];
  chat_feedback = [];
}

-- What the program does not decide, by the number of the call that asks for it: the clock, the
-- random bytes of an identifier, and whether a statement fails for a reason of SQLite's own.
pub record Env : Type 0 where
  pub now : ℕ → String
  pub random : ℕ → String
  pub fails : ℕ → Bool

pub record World : Type 0 where
  pub env : Env
  pub tick : ℕ
  pub db : Db

-- The errors that the functions return. The text around a wrapped error is left out.
pub data Error : Type 0 where
  -- a field of the request that is missing
  required : String → Error
  -- sql.ErrNoRows
  no_rows : Error
  -- a unique index refused the row
  unique : Error
  -- any other failure of a statement
  driver : Error
  -- a value that is not supported
  unsupported : String → Error
  -- something is in a state in which the call is refused
  wrong_status : String → Error
  -- a workspace resource is locked
  locked : String → Error
  -- something that a request names is not there
  not_found : String → Error
  -- policy or safety refused the action
  denied : String → Error
  -- what an external effect returned
  external : String → Error

pub data Outcome (A : Type 0) : Type 0 where
  ok : A → World → Outcome A
  err : Error → World → Outcome A

abbrev pub final : {A : Type 0} → Outcome A → World
final (ok a w) = w
final (err e w) = w

abbrev pub Exec : Type 0 → Type 0
Exec A = World → Outcome A

abbrev pub next : World → World
next w = record w { tick = suc w.tick }

module _ {A : Type 0} where
  unfoldable pub pure : A → Exec A
  pure a w = ok a w

  unfoldable pub raise : Error → Exec A
  raise e w = err e w

  -- a SELECT
  unfoldable pub query : (Db → A) → Exec A
  query f w = if w.env.fails w.tick then err driver (next w) else ok (f w.db) (next w)

  -- an error that the source drops, with what to go on with
  unfoldable pub attempt : A → Exec A → Exec A
  attempt a m w = elim (m w) [ ok b w' ↦ ok b w' | err e w' ↦ ok a w' ]

  -- an error that the source turns into one of its own
  unfoldable pub map_error : (Error → Error) → Exec A → Exec A
  map_error g m w = elim (m w) [ ok b w' ↦ ok b w' | err e w' ↦ err (g e) w' ]

-- time.Now().UTC().Format(time.RFC3339Nano)
unfoldable pub now : Exec String
now w = ok (w.env.now w.tick) (next w)

-- internal/ids/ids.go New
unfoldable pub new_id : String → Exec String
new_id prefix w = ok (prefix ^+ "_" ^+ w.env.random w.tick) (next w)

-- an UPDATE
unfoldable pub exec : (Db → Db) → Exec Unit
exec f w =
    if w.env.fails w.tick then err driver (next w) else ok tt (record (next w) { db = f w.db })

-- an UPDATE, and the number of rows that it affected
unfoldable pub exec_counted : (Db → ℕ) → (Db → Db) → Exec ℕ
exec_counted count f w =
    if w.env.fails w.tick
    then err driver (next w)
    else ok (count w.db) (record (next w) { db = f w.db })

-- an INSERT, which a unique index may refuse
unfoldable pub exec_insert : (Db → Option Db) → Exec Unit
exec_insert f w = if w.env.fails w.tick then err driver (next w) else elim (f w.db) [
  | none ↦ err unique (next w)
  | some db ↦ ok tt (record (next w) { db = db })
]

module _ {A B : Type 0} where
  infixl 5 ◌>>=◌
  -- opening this opens the actions too
  unfoldable pub ◌>>=◌ : Exec A → (A → Exec B) → Exec B
  unfolding pure raise query now new_id exec exec_counted exec_insert attempt map_error
  ◌>>=◌ m f w = elim (m w) [ ok a w' ↦ f a w' | err e w' ↦ err e w' ]

module _ {B : Type 0} where
  infixl 5 ◌>>◌
  abbrev pub ◌>>◌ : Exec Unit → Exec B → Exec B
  m >> k = m >>= λ _. k

-- `if cond { return err }`
unfoldable pub refuse_if : Bool → Error → Exec Unit
unfolding raise pure
refuse_if b e = if b then raise e else pure tt

-- the row of a QueryRow
unfoldable pub row : {R : Type 0} → Option R → Exec R
unfolding raise pure
row none = raise no_rows
row (some r) = pure r
