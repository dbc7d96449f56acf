-- ===== src/Common/Table/Laws.antt =====
-- Laws of the table operations: what holds of every row, of the row that is found, and of the
-- unique indexes.
use mathlib.Core.Path.{◌≡◌, refl}
use mathlib.Core.Logic.{inl, inr}
use mathlib.Core.Bool.{Bool, true, false}
use mathlib.Core.Option.{Option, none, some}
use mathlib.Core.Option
use mathlib.Core.List.{List, [], ◌∷◌, ◌++◌}
use native.Mathlib.Omega.{arith}
use nomici_orchestrator.Common.Tests.{Bool-cases, ◌==◌, or-false_left, or-false_right, eq_refl}
use Prim.Native.String.{String}
use nomici_orchestrator.Common.Lists.{any, All, All-append}
use nomici_orchestrator.Common.Table.{find, touch, update, insert, NoClash}

module _ {R : Type 0} where
  pub All-update :
      (P : R → Type 0) (p : R → Bool) (f : R → R)
      → ((r : R) → P r → p r ≡ true → P (f r))
      → (rs : List R) → All P rs
      → All P (update p f rs)
  unfolding update
  All-update P p f keep [] h = tt
  All-update P p f keep (r ∷ rs) h = elim (Bool-cases (p r)) [
    | inl e ↦ rw e (keep r h.0 e, All-update P p f keep rs h.1)
    | inr e ↦ rw e (h.0, All-update P p f keep rs h.1)
  ]

  pub insert-eq-some :
      (clash : R → R → Bool) (r : R) (rs : List R) {rs' : List R}
      → insert clash r rs ≡ some rs'
      → (any (clash r) rs ≡ false) × (rs' ≡ rs ++ r ∷ [])
  unfolding insert
  insert-eq-some clash r rs e = ground arith

  pub All-insert :
      (P : R → Type 0) (clash : R → R → Bool) (r : R) (rs : List R) {rs' : List R}
      → insert clash r rs ≡ some rs'
      → P r
      → All P rs
      → All P rs'
  All-insert P clash r rs e hr h =
      rw (insert-eq-some clash r rs e).1 (All-append P rs (r ∷ []) h (hr, tt))

  -- The row that a lookup returns passes its test, and has what all rows have.
  pub find-eq-some :
      (P : R → Type 0) (p : R → Bool) (rs : List R) {r : R}
      → find p rs ≡ some r
      → All P rs
      → P r × (p r ≡ true)
  unfolding find
  find-eq-some P p [] e h = absurd (ground arith)
  find-eq-some P p (x ∷ rs) {r} e h = elim (Bool-cases (p x)) [
    | inl t ↦ let same : x ≡ r = ground arith in rw (← same) (h.0, t)
    | inr f ↦ find-eq-some P p rs (ground arith) h.1
  ]

  pub any-append :
      (p : R → Bool) (xs ys : List R)
      → any p xs ≡ false
      → any p ys ≡ false
      → any p (xs ++ ys) ≡ false
  any-append p [] ys hx hy = hy
  any-append p (x ∷ xs) ys hx hy = ground (arith, any-append p xs ys)

  module _ (clash : R → R → Bool) (clash_comm : (a b : R) → clash a b ≡ clash b a) where
    pub NoClash-append_one :
        (r : R) (rs : List R)
        → any (clash r) rs ≡ false
        → NoClash clash rs
        → NoClash clash (rs ++ r ∷ [])
    NoClash-append_one r [] e h = (refl, tt)
    NoClash-append_one r (x ∷ rs) e h = (
      any-append (clash x) rs (r ∷ []) h.0 (ground (arith, clash_comm x r)),
      NoClash-append_one r rs (ground arith) h.1,
    )

    -- What an INSERT lets in keeps the unique index.
    pub NoClash-insert :
        (r : R) (rs : List R) {rs' : List R}
        → insert clash r rs ≡ some rs'
        → NoClash clash rs
        → NoClash clash rs'
    NoClash-insert r rs e h =
        let (free, same) = insert-eq-some clash r rs e in rw same (NoClash-append_one r rs free h)

  -- An UPDATE keeps a unique index, where it brings no two rows closer.
  module _ (clash : R → R → Bool) (p : R → Bool) (f : R → R)
      (apart : (a b : R) → clash a b ≡ false → clash (touch p f a) (touch p f b) ≡ false) where
    any-update :
        (r : R) (rs : List R)
        → any (clash r) rs ≡ false
        → any (clash (touch p f r)) (update p f rs) ≡ false
    unfolding update
    any-update r [] h = refl
    any-update r (x ∷ rs) h = rw (apart r x (ground arith)) (any-update r rs (ground arith))

    pub NoClash-update : (rs : List R) → NoClash clash rs → NoClash clash (update p f rs)
    unfolding update
    NoClash-update [] h = tt
    NoClash-update (x ∷ rs) h = (any-update x rs h.0, NoClash-update rs h.1)

  -- A lookup after an UPDATE that its test does not see finds the updated row.
  pub find-update :
      (q p : R → Bool) (f : R → R)
      → ((r : R) → q (touch p f r) ≡ q r)
      → (rs : List R) → find q (update p f rs) ≡ Option.map (touch p f) (find q rs)
  unfolding find update
  find-update q p f same [] = refl
  find-update q p f same (r ∷ rs) = elim (Bool-cases (q r)) [
    | inl e ↦ rw (same r) (rw e)
    | inr e ↦ rw (same r) (rw e (find-update q p f same rs))
  ]

module _ {R : Type 0} where
  pub All-map : (P Q : R → Type 0) → ((r : R) → P r → Q r) → (rs : List R) → All P rs → All Q rs
  All-map P Q f [] h = tt
  All-map P Q f (r ∷ rs) h = (f r h.0, All-map P Q f rs h.1)

  pub All-always : (P : R → Type 0) → ((r : R) → P r) → (rs : List R) → All P rs
  All-always P f [] = tt
  All-always P f (r ∷ rs) = (f r, All-always P f rs)

  -- Where a key names one row at most, the row that is found is the only one with the key.
  pub find-only :
      (clash : R → R → Bool) (q : R → Bool)
      → ((a b : R) → q a ≡ true → q b ≡ true → clash a b ≡ true)
      → (rs : List R) {r : R} → NoClash clash rs
      → find q rs ≡ some r
      → All (λ x. q x ≡ true → x ≡ r) rs
  unfolding find
  find-only clash q key [] n f = tt
  find-only clash q key (x ∷ rs) {r} n f = elim (Bool-cases (q x)) [
    | inl e ↦ let same : x ≡ r = ground arith in (λ _. same, only_one x rs e n.0)
    | inr e ↦ (λ t. cc, find-only clash q key rs n.1 (ground arith))
  ]
    where
      only_one :
          (x : R) (rs : List R)
          → q x ≡ true
          → any (clash x) rs ≡ false
          → All (λ y. q y ≡ true → y ≡ r) rs
      only_one x [] e h = tt
      only_one x (y ∷ rs) e h = (
        λ t. let c = key x y e t in let no : clash x y ≡ false = ground arith in cc,
        only_one x rs e (ground arith),
      )

module _ {R : Type 0} (key : R → String) where
  abbrev by_key : R → R → Bool
  by_key r x = key x == key r

  behind :
      (x : R) (rs ys : List R)
      → any (λ r. key x == key r) ys ≡ false
      → All (λ r. find (by_key r) rs ≡ some r) ys
      → All (λ r. find (by_key r) (x ∷ rs) ≡ some r) ys
  unfolding find
  behind x rs [] e h = tt
  behind x rs (y ∷ ys) e h = (
    rw (or-false_left (key x == key y) (any (λ r. key x == key r) ys) e) h.0,
    behind x rs ys (or-false_right (key x == key y) (any (λ r. key x == key r) ys) e) h.1,
  )

  -- Where the key is the primary key, each row is the one that a lookup by its key finds.
  pub find-key :
      (rs : List R)
      → NoClash (λ a b. key a == key b) rs
      → All (λ r. find (λ x. key x == key r) rs ≡ some r) rs
  unfolding find
  find-key [] n = tt
  find-key (x ∷ rs) n = (rw eq_refl refl, behind x rs rs n.0 (find-key rs n.1))
