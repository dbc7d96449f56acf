-- ===== src/Common/Table/Extending.antt =====
-- Tables that follow one another: each row keeps its place and moves along a relation.
use mathlib.Core.Path.{◌≡◌, refl}
use mathlib.Core.Logic.{inl, inr}
use mathlib.Core.Bool.{Bool, true}
use mathlib.Core.Option.{some}
use mathlib.Core.List.{List, [], ◌∷◌, ◌++◌}
use native.Mathlib.Omega.{arith}
use nomici_orchestrator.Common.Tests.{Bool-cases}
use nomici_orchestrator.Common.Lists.{All}
use nomici_orchestrator.Common.Table.{find, update, insert, Extends}
use nomici_orchestrator.Common.Table.Laws.{insert-eq-some}

module _ {R : Type 0} (S : R → R → Type 0) where
  module _ (S-refl : (a : R) → S a a) where
    pub Extends-refl : (xs : List R) → Extends S xs xs
    Extends-refl [] = tt
    Extends-refl (x ∷ xs) = (S-refl x, Extends-refl xs)

    Extends-append : (xs ys : List R) → Extends S xs (xs ++ ys)
    Extends-append [] ys = tt
    Extends-append (x ∷ xs) ys = (S-refl x, Extends-append xs ys)

    pub Extends-insert :
        (clash : R → R → Bool) (r : R) (rs : List R) {rs' : List R}
        → insert clash r rs ≡ some rs'
        → Extends S rs rs'
    Extends-insert clash r rs e = rw (insert-eq-some clash r rs e).1 (Extends-append rs (r ∷ []))

    -- An UPDATE moves the rows along the relation, if it does so with those that it selects.
    pub Extends-update :
        (p : R → Bool) (f : R → R) (rs : List R)
        → All (λ r. p r ≡ true → S r (f r)) rs
        → Extends S rs (update p f rs)
    unfolding update
    Extends-update p f [] h = tt
    Extends-update p f (r ∷ rs) h = elim (Bool-cases (p r)) [
      | inl e ↦ rw e (h.0 e, Extends-update p f rs h.1)
      | inr e ↦ rw e (S-refl r, Extends-update p f rs h.1)
    ]

  pub Extends-trans :
      ((a b c : R) → S a b → S b c → S a c)
      → (xs ys zs : List R) → Extends S xs ys
      → Extends S ys zs
      → Extends S xs zs
  Extends-trans t [] ys zs h k = tt
  Extends-trans t (x ∷ xs) [] zs h k = absurd h
  Extends-trans t (x ∷ xs) (y ∷ ys) [] h k = absurd k
  Extends-trans t (x ∷ xs) (y ∷ ys) (z ∷ zs) h k =
      (t x y z h.0 k.0, Extends-trans t xs ys zs h.1 k.1)

  -- A lookup that the relation leaves alone goes on to find the row, moved along the relation.
  pub Extends-find :
      (q : R → Bool)
      → ((a b : R) → S a b → q b ≡ q a)
      → (xs ys : List R) {a : R} → Extends S xs ys
      → find q xs ≡ some a
      → (b : R) × (find q ys ≡ some b) × S a b
  unfolding find
  Extends-find q same [] ys h e = absurd (ground arith)
  Extends-find q same (x ∷ xs) [] h e = absurd h
  Extends-find q same (x ∷ xs) (y ∷ ys) {a} h e = elim (Bool-cases (q x)) [
    | inl t ↦ let is : x ≡ a = ground arith in (y, rw (same x y h.0, t) refl, rw (← is) h.0)
    | inr f ↦
        let (b, there, s) = Extends-find q same xs ys h.1 (ground arith) in
        (b, rw (same x y h.0, f) there, s)
  ]
