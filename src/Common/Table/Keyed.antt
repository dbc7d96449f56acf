-- ===== src/Common/Table/Keyed.antt =====
-- A table that is looked up by a key, after its row was refreshed or a row was added.
use Prim.Native.String.{String}
use mathlib.Core.Path.{◌≡◌, refl, sym, ◌∙◌, ap, subst}
use mathlib.Core.Logic.{inl, inr}
use mathlib.Core.Bool.{Bool, true, false}
use mathlib.Core.Option
use mathlib.Core.Option.{Option, none, some}
use mathlib.Core.List.{List, [], ◌∷◌, ◌++◌}
use native.Mathlib.Omega.{arith}
use nomici_orchestrator.Common.Tests.{
  Bool-cases, Option-cases, if◌then◌else◌, ◌==◌, eq_iff, ==_comm,
}
use nomici_orchestrator.Common.Lists.{any}
use nomici_orchestrator.Common.Table.{find, update, touch}
use nomici_orchestrator.Common.Table.Laws.{find-update}
use nomici_orchestrator.Common.Table.Finding.{find-none, find-snoc, find-test}

module _ {R : Type 0} (key : R → String) where
  abbrev pub keyed : String → R → Bool
  keyed k r = key r == k

  pub find-added :
      (k : String) (rs : List R) (r : R)
      → any (keyed (key r)) rs ≡ false
      → find (keyed k) (rs ++ r ∷ []) ≡ (if key r == k then some r else find (keyed k) rs)
  find-added k rs r free = find-snoc (keyed k) rs r ∙ elim (Bool-cases (key r == k)) [
    | inl e ↦
        let same = (eq_iff (key r) k).0 e in
        let gone = find-none (keyed k) rs (subst (λ x. any (keyed x) rs ≡ false) same free) in
        rw (gone, e) refl
    | inr e ↦ elim (Option-cases (find (keyed k) rs)) [
      | inl n ↦ rw (n, e) refl
      | inr (x, n) ↦ rw (n, e) refl
    ]
  ]

  -- a row of another key is not the one that is refreshed
  other_key :
      (j k : String) (rs : List R) {r : R}
      → j == k ≡ false
      → find (keyed k) rs ≡ some r
      → keyed j r ≡ false
  other_key j k rs {r} e found =
      let is = (eq_iff (key r) k).0 (find-test (keyed k) rs found) in
      subst (λ x. x == j ≡ false) (sym is) (==_comm k j ∙ e)

  pub find-refreshed :
      (j k : String) (f : R → R) (rs : List R)
      → ((r : R) → key (f r) ≡ key r)
      → find (keyed k) (update (keyed j) f rs)
        ≡ (if j == k then Option.map f (find (keyed k) rs) else find (keyed k) rs)
  find-refreshed j k f rs kept =
      find-update (keyed k) (keyed j) f keeps rs ∙ elim (Option-cases (find (keyed k) rs)) [
        | inl n ↦ rw n (ground arith)
        | inr (r, found) ↦ rw found (elim (Bool-cases (j == k)) [
          | inl e ↦
              let hit : keyed j r ≡ true =
                subst (λ x. key r == x ≡ true) (sym ((eq_iff j k).0 e))
                  (find-test (keyed k) rs found) in
              rw (hit, e) refl
          | inr e ↦ rw (other_key j k rs {r = r} e found, e) refl
        ])
      ]
    where
      keeps : (r : R) → keyed k (touch (keyed j) f r) ≡ keyed k r
      keeps r = elim (Bool-cases (keyed j r)) [
        | inl e ↦ rw e (ap (λ x. x == k) (kept r))
        | inr e ↦ rw e refl
      ]
