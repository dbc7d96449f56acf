-- ===== src/Store/Inversion.antt =====
-- What is so of an action that succeeded: what its parts returned, and in which worlds they ran.
use nomici_orchestrator.Common.{
  ap, sym, ◌∙◌, arith, ◌≡◌, refl, Bool, true, false, Option, none, some, Option-cases, String, inl,
  inr,
}
use nomici_orchestrator.Store.{
  Db, World, Error, Outcome, ok, err, next, Exec, pure, raise, query, now, exec, exec_insert, ◌>>=◌,
  refuse_if, row,
}

pub query-eq-ok :
    {A : Type 0} (f : Db → A) (w : World) {a : A} {w' : World}
    → query f w ≡ ok a w'
    → (a ≡ f w.db) × (w' ≡ next w)
unfolding query
query-eq-ok f w h = ground arith

pub now-eq-ok :
    (w : World) {a : String} {w' : World} → now w ≡ ok a w' → (a ≡ w.env.now w.tick) × (w' ≡ next w)
unfolding now
now-eq-ok w h = ground arith

pub refuse_if-eq-ok :
    (b : Bool) (e : Error) (w : World) {a : Unit} {w' : World}
    → refuse_if b e w ≡ ok a w'
    → (b ≡ false) × (w' ≡ w)
unfolding refuse_if
refuse_if-eq-ok true e w h = absurd (ground arith)
refuse_if-eq-ok false e w h = (refl, ground arith)

-- A successful action was a successful first part and a successful rest.
pub bind-eq-ok :
    {A B : Type 0} (m : Exec A) (f : A → Exec B) (w : World) {b : B} {w'' : World}
    → (m >>= f) w ≡ ok b w''
    → (a : A) × (w' : World) × (m w ≡ ok a w') × (f a w' ≡ ok b w'')
unfolding ◌>>=◌
bind-eq-ok {A} {B} m f w {b} {w''} h = go (m w) refl h
  where
    go :
        (x : Outcome A)
        → m w ≡ x
        → (elim x as (λ y. Outcome B) [ ok a w' ↦ f a w' | err e w' ↦ err e w' ]) ≡ ok b w''
        → (a : A) × (w' : World) × (m w ≡ ok a w') × (f a w' ≡ ok b w'')
    go (ok a w') e k = (a, w', e, k)
    go (err e w') _ k = absurd (ground arith)

pub row-eq-ok :
    {A : Type 0} (r : Option A) (w : World) {a : A} {w' : World}
    → row r w ≡ ok a w'
    → (r ≡ some a) × (w' ≡ w)
unfolding row raise pure
row-eq-ok none w h = absurd (ground arith)
row-eq-ok (some a) w h = ground arith

-- a QueryRow and its Scan
pub read-eq-ok :
    {A : Type 0} (f : Db → Option A) (w : World) {a : A} {w' : World}
    → (query f >>= row) w ≡ ok a w'
    → (f w.db ≡ some a) × (w' ≡ next w)
read-eq-ok f w h =
    let (r, w₁, asked, scanned) = bind-eq-ok (query f) row w h in
    let (same, w₁_is) = query-eq-ok f w asked in
    let (there, w'_is) = row-eq-ok r w₁ scanned in (sym same ∙ there, w'_is ∙ w₁_is)

pub pure-eq-ok :
    {A : Type 0} (b : A) (w : World) {a : A} {w' : World} → pure b w ≡ ok a w' → (a ≡ b) × (w' ≡ w)
unfolding pure
pure-eq-ok b w h = ground arith

pub exec-eq-ok :
    (f : Db → Db) (w : World) {u : Unit} {w' : World}
    → exec f w ≡ ok u w'
    → (w' ≡ record (next w) { db = f w.db }) × (w.env.fails w.tick ≡ false)
unfolding exec
exec-eq-ok f w h = ground arith

-- a statement, and what is returned after it
pub exec-pure-eq-ok :
    {A : Type 0} (f : Db → Db) (b : A) (w : World) {a : A} {w' : World}
    → (exec f >>= λ _. pure b) w ≡ ok a w'
    → (a ≡ b) × (w'.db ≡ f w.db)
exec-pure-eq-ok f b w h =
    let (u, w₁, done, rest) = bind-eq-ok (exec f) (λ _. pure b) w h in
    let (w₁_is, _) = exec-eq-ok f w done in
    let (same, w'_is) = pure-eq-ok b w₁ rest in (same, ap (λ (x : World). x.db) (w'_is ∙ w₁_is))

pub exec_insert-eq-ok :
    (f : Db → Option Db) (w : World) {u : Unit} {w' : World}
    → exec_insert f w ≡ ok u w'
    → (b : Db) × (f w.db ≡ some b) × (w' ≡ record (next w) { db = b })
unfolding exec_insert
exec_insert-eq-ok f w h = elim (Option-cases (f w.db)) [
  | inl e ↦ absurd (ground arith)
  | inr (b, e) ↦ (b, e, ground arith)
]
