-- ===== src/Common/Table/Selecting.antt =====
-- What holds of the rows that a SELECT returns.
use mathlib.Core.Path.{◌≡◌}
use mathlib.Core.Logic.{inl, inr}
use mathlib.Core.Bool.{Bool, true}
use mathlib.Core.List.{List, [], ◌∷◌}
use nomici_orchestrator.Common.Tests.{Bool-cases}
use nomici_orchestrator.Common.Lists.{All}
use nomici_orchestrator.Common.Table.{select, place, order_by}

module _ {R : Type 0} (P : R → Type 0) where
  pub All-select : (p : R → Bool) (rs : List R) → All P rs → All P (select p rs)
  unfolding select
  All-select p [] h = tt
  All-select p (r ∷ rs) h = elim (Bool-cases (p r)) [
    | inl e ↦ rw e (h.0, All-select p rs h.1)
    | inr e ↦ rw e (All-select p rs h.1)
  ]

  -- What a SELECT returns passes its test.
  pub select-All : (p : R → Bool) (rs : List R) → ((r : R) → p r ≡ true → P r) → All P (select p rs)
  unfolding select
  select-All p [] h = tt
  select-All p (r ∷ rs) h = elim (Bool-cases (p r)) [
    | inl e ↦ rw e (h r e, select-All p rs h)
    | inr e ↦ rw e (select-All p rs h)
  ]

  -- What is selected has what follows from the property of all rows and the test.
  pub select-All_where :
      (Q : R → Type 0) (p : R → Bool)
      → ((r : R) → P r → p r ≡ true → Q r)
      → (rs : List R) → All P rs
      → All Q (select p rs)
  unfolding select
  select-All_where Q p both [] h = tt
  select-All_where Q p both (r ∷ rs) h = elim (Bool-cases (p r)) [
    | inl e ↦ rw e (both r h.0 e, select-All_where Q p both rs h.1)
    | inr e ↦ rw e (select-All_where Q p both rs h.1)
  ]

  All-place :
      (before : R → R → Bool) (r : R) (rs : List R) → P r → All P rs → All P (place before r rs)
  unfolding place
  All-place before r [] hr h = (hr, tt)
  All-place before r (x ∷ rs) hr h = elim (Bool-cases (before x r)) [
    | inl e ↦ rw e (h.0, All-place before r rs hr h.1)
    | inr e ↦ rw e (hr, h)
  ]

  pub All-order_by : (before : R → R → Bool) (rs : List R) → All P rs → All P (order_by before rs)
  unfolding order_by
  All-order_by before [] h = tt
  All-order_by before (r ∷ rs) h =
      All-place before r (order_by before rs) h.0 (All-order_by before rs h.1)
