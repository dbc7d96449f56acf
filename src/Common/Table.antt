-- ===== src/Common/Table.antt =====
-- A table of the database: the list of its rows, and what the SQL statements of the program do to
-- it. A row that an INSERT adds stands last.
pub mod Laws
pub mod Extending
pub mod Selecting
pub mod Finding
pub mod Keyed
use Prim.Native.Nat.{ℕ, suc}
use mathlib.Core.Path.{◌≡◌}
use mathlib.Core.Bool.{Bool, true, false}
use mathlib.Core.Option.{Option, none, some}
use mathlib.Core.List.{List, [], ◌∷◌, ◌++◌}
use nomici_orchestrator.Common.Tests.{if◌then◌else◌}
use nomici_orchestrator.Common.Lists.{any}

module _ {R : Type 0} where
  -- SELECT … WHERE, every row
  unfoldable pub select : (R → Bool) → List R → List R
  select p [] = []
  select p (r ∷ rs) = let rest = select p rs in if p r then r ∷ rest else rest

  -- SELECT … WHERE, the first row; `none` is sql.ErrNoRows
  unfoldable pub find : (R → Bool) → List R → Option R
  find p [] = none
  find p (r ∷ rs) = if p r then some r else find p rs

  -- what an UPDATE makes of one row
  abbrev pub touch : (R → Bool) → (R → R) → R → R
  touch p f r = if p r then f r else r

  -- UPDATE … SET … WHERE
  unfoldable pub update : (R → Bool) → (R → R) → List R → List R
  update p f [] = []
  update p f (r ∷ rs) = touch p f r ∷ update p f rs

  -- RowsAffected of that UPDATE
  unfoldable pub affected : (R → Bool) → List R → ℕ
  affected p [] = 0
  affected p (r ∷ rs) = let rest = affected p rs in if p r then suc rest else rest

  -- DELETE … WHERE
  unfoldable pub remove : (R → Bool) → List R → List R
  remove p [] = []
  remove p (r ∷ rs) = let rest = remove p rs in if p r then rest else r ∷ rest

  -- INSERT; `none` where a unique index of the table refuses the row
  unfoldable pub insert : (R → R → Bool) → R → List R → Option (List R)
  insert clash r rs = if any (clash r) rs then none else some (rs ++ r ∷ [])

  unfoldable pub place : (R → R → Bool) → R → List R → List R
  place before r [] = r ∷ []
  place before r (x ∷ xs) = if before x r then x ∷ place before r xs else r ∷ x ∷ xs

  -- ORDER BY, where `before` is the strict order. Rows that are level keep the table's order, which
  -- SQL leaves open.
  unfoldable pub order_by : (R → R → Bool) → List R → List R
  unfolding place
  order_by before [] = []
  order_by before (r ∷ rs) = place before r (order_by before rs)

  -- No two rows are refused to one another by the unique index.
  abbrev pub NoClash : (R → R → Bool) → List R → Type 0
  NoClash clash [] = Unit
  NoClash clash (r ∷ rs) = (any (clash r) rs ≡ false) × NoClash clash rs

  -- The rows of one table are still there in another one, in their places, each moved along a
  -- relation; rows may have been added behind them.
  abbrev pub Extends : (R → R → Type 0) → List R → List R → Type 0
  Extends S [] ys = Unit
  Extends S (x ∷ xs) [] = ⊥
  Extends S (x ∷ xs) (y ∷ ys) = S x y × Extends S xs ys
