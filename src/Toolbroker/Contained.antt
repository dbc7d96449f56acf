-- ===== src/Toolbroker/Contained.antt =====
-- internal/toolbroker/broker.go: that a tool works on the files of the workspace.
use nomici_orchestrator.Common.{
  String, ◌==◌, eq_iff, ◌≡◌, sym, ◌∙◌, ap, inl, inr, true, false, not, ◌&&◌, some, List, [], ◌∷◌,
  ◌++◌, arith, ◌^+◌, Bool-cases, Option-cases, subst,
}
use mathlib.Core.List.{append-nil}
use nomici_orchestrator.Paths.{Host, abs, is_abs, split, starts_with}
use nomici_orchestrator.Paths.Parts.{IsDown, abs-IsDown, starts_with-split}
use nomici_orchestrator.Store.{World, ok}
use nomici_orchestrator.Store.Inversion.{bind-eq-ok, refuse_if-eq-ok, pure-eq-ok}
use nomici_orchestrator.Store.Rows.{Sandbox}
use nomici_orchestrator.Toolbroker.Broker.{sandbox}
use nomici_orchestrator.Toolbroker.Workspace.{absolute, workspace_path}

absolute-eq-ok :
    (host : Host) (p : String) (w : World) {q : String} {w' : World}
    → absolute host p w ≡ ok q w'
    → abs host p ≡ some q
unfolding absolute
absolute-eq-ok host p w h = elim (Option-cases (abs host p)) [
  | inl e ↦ absurd (ground arith)
  | inr (r, e) ↦ ground arith
]

-- The parts of a path are those of the root and then some that do not lead up.
abbrev pub Within : String → String → Type 0
Within root p = (rest : List String) × (split p ≡ split root ++ rest) × IsDown rest

IsDown-behind : (xs ys : List String) → IsDown (xs ++ ys) → IsDown ys
IsDown-behind [] ys h = h
IsDown-behind (x ∷ xs) ys h = IsDown-behind xs ys h.1

within :
    (root p : String)
    → not (p == root) && not (starts_with (root ^+ "/") p) ≡ false
    → IsDown (split p)
    → Within root p
within root p h down = elim (Bool-cases (p == root)) [
  | inl e ↦ ([], ap split ((eq_iff p root).0 e) ∙ sym (append-nil (split root)), tt)
  | inr e ↦
      let (rest, same) = starts_with-split root p (ground arith) in
      (rest, same, IsDown-behind (split root) rest (subst IsDown same down))
]

-- Where the working directory is a rooted path: a path that workspacePath returns stands inside the
-- workspace of the run's sandbox. Its parts are those of the workspace root, made absolute, and then
-- some of which none is `..`.
pub workspace_path-Within :
    (host : Host) (run_id raw_path : String) (w : World) {p : String} {w' : World}
    → ((dir : String) → host.working_directory ≡ some dir → is_abs dir ≡ true)
    → workspace_path host run_id raw_path w ≡ ok p w'
    → (s : Sandbox) × (w₁ : World) × (root : String) × (sandbox run_id w ≡ ok s w₁)
      × (abs host s.workspace_root ≡ some root)
      × Within root p
unfolding workspace_path
workspace_path-Within host run_id raw_path w dir_abs h =
    let (_, w₀, named, h) = bind-eq-ok _ _ w h in
    let (_, w₀_is) = refuse_if-eq-ok _ _ w named in
    let (s, w₁, read, h) = bind-eq-ok _ _ w₀ h in
    let (_, w₂, there, h) = bind-eq-ok _ _ w₁ h in
    let (_, w₃, relative, h) = bind-eq-ok _ _ w₂ h in
    let (_, w₄, below, h) = bind-eq-ok _ _ w₃ h in
    let (root, w₅, at_root, h) = bind-eq-ok _ _ w₄ h in
    let (q, w₆, at_file, h) = bind-eq-ok _ _ w₅ h in
    let (_, w₇, inside, h) = bind-eq-ok _ _ w₆ h in
    let (same, _) = pure-eq-ok q w₇ h in
    let contained = (refuse_if-eq-ok _ _ w₆ inside).0 in
    let down = abs-IsDown host _ dir_abs (absolute-eq-ok host _ w₅ at_file) in
    (
      s,
      w₁,
      root,
      subst (λ x. sandbox run_id x ≡ ok s w₁) w₀_is read,
      absolute-eq-ok host _ w₄ at_root,
      subst (Within root) (sym same) (within root q contained down),
    )
