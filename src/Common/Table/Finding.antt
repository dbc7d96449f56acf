-- ===== src/Common/Table/Finding.antt =====
-- What a lookup finds, in a table and behind it.
use mathlib.Core.Path.{◌≡◌, refl}
use mathlib.Core.Logic.{inl, inr}
use mathlib.Core.Bool.{Bool, true, false}
use mathlib.Core.Option.{none, some}
use mathlib.Core.List.{List, [], ◌∷◌, ◌++◌}
use native.Mathlib.Omega.{arith}
use nomici_orchestrator.Common.Tests.{Bool-cases, if◌then◌else◌}
use nomici_orchestrator.Common.Lists.{any}
use nomici_orchestrator.Common.Table.{find}
use nomici_orchestrator.Common.Table.Laws.{find-eq-some, All-always}

pub find-none : {R : Type 0} (p : R → Bool) (rs : List R) → any p rs ≡ false → find p rs ≡ none
unfolding find
find-none p [] h = refl
find-none p (r ∷ rs) h = ground (arith, find-none p rs)

pub find-some :
    {R : Type 0} (p : R → Bool) (rs : List R) → any p rs ≡ true → (r : R) × (find p rs ≡ some r)
unfolding find
find-some p [] h = absurd (ground arith)
find-some p (r ∷ rs) h = elim (Bool-cases (p r)) [
  | inl e ↦ (r, rw e refl)
  | inr e ↦ let (x, f) = find-some p rs (ground arith) in (x, rw e f)
]

pub find-snoc :
    {R : Type 0} (p : R → Bool) (rs : List R) (r : R)
    → find p (rs ++ r ∷ [])
      ≡ elim (find p rs) [ none ↦ if p r then some r else none | some x ↦ some x ]
unfolding find
find-snoc p [] r = refl
find-snoc p (x ∷ rs) r = elim (Bool-cases (p x)) [
  | inl e ↦ rw e refl
  | inr e ↦ rw e (find-snoc p rs r)
]

-- What a lookup finds passes its test.
pub find-test : {R : Type 0} (p : R → Bool) (rs : List R) {r : R} → find p rs ≡ some r → p r ≡ true
find-test p rs h = (find-eq-some (λ r. Unit) p rs h (All-always (λ r. Unit) (λ r. tt) rs)).1
