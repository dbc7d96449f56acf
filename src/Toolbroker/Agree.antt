-- ===== src/Toolbroker/Agree.antt =====
-- When two actions do the same in a world unless there is a given reason. An action that takes the
-- tools as an argument runs none of them, if it does the same whatever they are.
use nomici_orchestrator.Common.{◌≡◌, refl, ◌⊎◌, inl, inr, Bool, true, false, if◌then◌else◌}
use nomici_orchestrator.Store.{World, Outcome, ok, err, Exec, ◌>>=◌}

pub record Agree {A : Type 0} (P : Type 0) (m n : Exec A) (w : World) : Type 0 where
  pub at : P ⊎ (m w ≡ n w)

module _ {A : Type 0} {P : Type 0} (w : World) where
  pub same-Agree : (m : Exec A) → Agree P m m w
  same-Agree m = record { at = inr refl }

  pub given-Agree : (m n : Exec A) → P → Agree P m n w
  given-Agree m n p = record { at = inl p }

  pub if-Agree :
      (b : Bool) (m m' n n' : Exec A)
      → (b ≡ true → Agree P m n w)
      → (b ≡ false → Agree P m' n' w)
      → Agree P (if b then m else m') (if b then n else n') w
  if-Agree true m m' n n' h k = h refl
  if-Agree false m m' n n' h k = k refl

pub bind-Agree :
    {A B : Type 0} {P : Type 0} (w : World) (m : Exec A) (f g : A → Exec B)
    → ((a : A) (w' : World) → m w ≡ ok a w' → Agree P (f a) (g a) w')
    → Agree P (m >>= f) (m >>= g) w
unfolding ◌>>=◌
bind-Agree {A} {B} {P} w m f g h = record { at = go (m w) refl }
  where
    go :
        (x : Outcome A)
        → m w ≡ x
        → P
          ⊎ ((elim x as (λ y. Outcome B) [ ok a w' ↦ f a w' | err e w' ↦ err e w' ])
              ≡ (elim x as (λ y. Outcome B) [ ok a w' ↦ g a w' | err e w' ↦ err e w' ]))
    go (ok a w') e = (h a w' e).at
    go (err e w') _ = inr refl
