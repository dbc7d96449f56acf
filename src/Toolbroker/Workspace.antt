-- ===== src/Toolbroker/Workspace.antt =====
-- internal/toolbroker/broker.go: the file that a tool works on.
use nomici_orchestrator.Common.{
  String, ◌==◌, not, ◌&&◌, ◌||◌, none, some, if◌then◌else◌, is_empty, trim_space, ◌^+◌,
}
use nomici_orchestrator.Paths.{Host, abs, clean, is_abs, join, starts_with}
use nomici_orchestrator.Store.{
  required, external, not_found, denied, Exec, pure, raise, refuse_if, ◌>>=◌, ◌>>◌,
}
use nomici_orchestrator.Toolbroker.Broker.{sandbox}

-- filepath.Abs, which fails where os.Getwd does
unfoldable pub absolute : Host → String → Exec String
unfolding pure raise
absolute host p w = elim (abs host p) [ none ↦ raise (external "getwd") w | some q ↦ pure q w ]

unfoldable pub workspace_path : Host → String → String → Exec String
workspace_path host run_id raw_path = do
  refuse_if (is_empty (trim_space raw_path)) (required "path")
  found ← sandbox run_id
  let root = found.workspace_root
  refuse_if (is_empty root) (not_found "workspace root")
  refuse_if (is_abs raw_path) (denied "absolute paths are not allowed")
  let cleaned = if clean raw_path == "." then "" else clean raw_path
  refuse_if (cleaned == ".." || starts_with "../" cleaned) (denied "path escapes the workspace")
  absolute_root ← absolute host root
  absolute_resolved ← absolute host (join root cleaned)
  refuse_if
      (not (absolute_resolved == absolute_root)
        && not (starts_with (absolute_root ^+ "/") absolute_resolved))
      (denied "path escapes the workspace")
  pure absolute_resolved
