-- ===== src/Runs/Changes.antt =====
-- internal/runs/store.go: what resuming and cancelling a session does, on every branch.
use nomici_orchestrator.Common.{ℕ, String, ◌≡◌, Bool, false, ◌&&◌, some, List, is_empty}
use nomici_orchestrator.Common.Table
use nomici_orchestrator.Common.Table.{NoClash, touch}
use nomici_orchestrator.Store.{World, next}
use nomici_orchestrator.Store.Rows.{Session}
use nomici_orchestrator.Runs.Types.{is_in}
use nomici_orchestrator.Runs.Sessions.{clash, has_session, update_sessions}

module _ (session_id : String) (statuses : List String) where
  abbrev selects : Session → Bool
  selects s = has_session session_id s && is_in statuses s.status

module _ (session_id : String) (w : World) {s : Session}
    (steady : (n : ℕ) → w.env.fails n ≡ false) where
  module _ (statuses : List String) (f : String → Session → Session)
      (keeps : (at : String) (s : Session)
        → has_session session_id (f at s) ≡ has_session session_id s)
      (named : is_empty session_id ≡ false) (unique : NoClash clash w.db.run_sessions)
      (found : Table.find (has_session session_id) w.db.run_sessions ≡ some s) where
    abbrev after : World
    after = record (next (next w)) {
      db = update_sessions (selects session_id statuses) (f (w.env.now w.tick)) w.db;
    }
