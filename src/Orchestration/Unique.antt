-- ===== src/Orchestration/Unique.antt =====
-- internal/orchestration/router.go unique: which texts it keeps.
use nomici_orchestrator.Common.{
  String, ◌==◌, eq_iff, eq_refl, ◌≡◌, refl, sym, ◌∙◌, Bool, true, false, not, ◌&&◌, ◌||◌, List, [],
  ◌∷◌, ◌++◌, arith, any, is_empty, trim_space, Bool-cases, inl, inr, All, All-append, or-false_left,
  trim_space-trim_space,
}
use nomici_orchestrator.Common.Table.{NoClash}
use nomici_orchestrator.Orchestration.Route.{has_text, unique, unique_after}

-- no text stands twice in the list
abbrev pub Distinct : List String → Type 0
Distinct = NoClash (λ a b. b == a)

-- one of the texts is `v` when it is trimmed
abbrev pub has_trimmed : List String → String → Bool
has_trimmed vs v = any (λ u. trim_space u == v) vs

members_after :
    (v : String) (seen vs : List String)
    → has_text (unique_after seen vs) v
      ≡ (not (is_empty v) && (not (has_text seen v) && has_trimmed vs v))
unfolding unique_after
members_after v seen [] = ground arith
members_after v seen (u ∷ vs) =
    elim (Bool-cases (is_empty (trim_space u) || has_text seen (trim_space u))) [
      | inl k ↦ rw k (elim (Bool-cases (trim_space u == v)) [
        | inl e ↦
            let same : trim_space u ≡ v = (eq_iff (trim_space u) v).0 e in
            let k' : is_empty v || has_text seen v ≡ true = rw (← same) k in
            ground (arith, members_after v seen vs)
        | inr e ↦ rw e (members_after v seen vs)
      ])
      | inr k ↦ rw k (elim (Bool-cases (trim_space u == v)) [
        | inl e ↦
            let same : trim_space u ≡ v = (eq_iff (trim_space u) v).0 e in
            let k' : is_empty v || has_text seen v ≡ false = rw (← same) k in ground arith
        | inr e ↦ ground (arith, members_after v (trim_space u ∷ seen) vs)
      ])
    ]

unique_after-Distinct : (seen vs : List String) → Distinct (unique_after seen vs)
unfolding unique_after
unique_after-Distinct seen [] = tt
unique_after-Distinct seen (u ∷ vs) =
    elim (Bool-cases (is_empty (trim_space u) || has_text seen (trim_space u))) [
      | inl k ↦ rw k (unique_after-Distinct seen vs)
      | inr k ↦ rw k (
        members_after (trim_space u) (trim_space u ∷ seen) vs
            ∙ rw (eq_refl (trim_space u)) (ground arith),
        unique_after-Distinct (trim_space u ∷ seen) vs,
      )
    ]

-- What unique returns holds no text twice, and holds a text exactly if the text is not empty and is
-- one of the given texts, trimmed.
pub unique-Distinct_members :
    (vs : List String)
    → Distinct (unique vs)
      × ((v : String) → has_text (unique vs) v ≡ (not (is_empty v) && has_trimmed vs v))
unfolding unique
unique-Distinct_members vs = (unique_after-Distinct [] vs, λ v. members_after v [] vs)

-- a text that unique keeps as it is
abbrev pub IsClean : String → Type 0
IsClean v = (trim_space v ≡ v) × (is_empty v ≡ false)

unique_after-IsClean : (seen vs : List String) → All IsClean (unique_after seen vs)
unfolding unique_after
unique_after-IsClean seen [] = tt
unique_after-IsClean seen (u ∷ vs) =
    elim (Bool-cases (is_empty (trim_space u) || has_text seen (trim_space u))) [
      | inl k ↦ rw k (unique_after-IsClean seen vs)
      | inr k ↦ rw k (
        (trim_space-trim_space u, or-false_left (is_empty (trim_space u)) _ k),
        unique_after-IsClean (trim_space u ∷ seen) vs,
      )
    ]

pub unique-IsClean : (vs : List String) → All IsClean (unique vs)
unfolding unique
unique-IsClean vs = unique_after-IsClean [] vs

clean-has_trimmed :
    (v : String) (vs : List String) → All IsClean vs → has_trimmed vs v ≡ has_text vs v
clean-has_trimmed v [] h = refl
clean-has_trimmed v (u ∷ vs) h = rw (h.0.0, clean-has_trimmed v vs h.1) refl

-- An empty text is not among clean ones.
clean-filled :
    (v : String) (vs : List String) → All IsClean vs → is_empty v ≡ true → has_text vs v ≡ false
clean-filled v [] h e = refl
clean-filled v (u ∷ vs) h e = elim (Bool-cases (u == v)) [
  | inl same ↦
      let is : u ≡ v = (eq_iff u v).0 same in
      let no : is_empty v ≡ false = rw (← is) h.0.1 in absurd (cc)
  | inr other ↦ rw other (clean-filled v vs h.1 e)
]

-- Of clean texts, unique keeps what is there.
pub clean-unique :
    (v : String) (vs : List String) → All IsClean vs → has_text (unique vs) v ≡ has_text vs v
clean-unique v vs h =
    (unique-Distinct_members vs).1 v
    ∙ rw (clean-has_trimmed v vs h) (elim (Bool-cases (is_empty v)) [
      | inl e ↦ rw e (sym (clean-filled v vs h e))
      | inr e ↦ rw e refl
    ])

has_text-append :
    (v : String) (xs ys : List String) → has_text (xs ++ ys) v ≡ (has_text xs v || has_text ys v)
has_text-append v [] ys = refl
has_text-append v (x ∷ xs) ys = ground (arith, has_text-append v xs ys)

pub unique-append :
    (v : String) (xs ys : List String)
    → All IsClean xs
    → All IsClean ys
    → has_text (unique (xs ++ ys)) v ≡ (has_text xs v || has_text ys v)
unique-append v xs ys hx hy =
    clean-unique v (xs ++ ys) (All-append IsClean xs ys hx hy) ∙ has_text-append v xs ys
