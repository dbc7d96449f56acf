-- ===== src/Store/Steps.antt =====
-- One step of an action that goes well: what is left to run, and in which world.
use nomici_orchestrator.Common.{
  ℕ, ap, ◌≡◌, refl, arith, Bool, true, false, Option, some, String, if◌then◌else◌,
}
use nomici_orchestrator.Store.{
  Db, World, Error, Outcome, ok, err, next, Exec, query, now, exec, exec_counted, ◌>>=◌, refuse_if,
  row,
}

pub bind-ok :
    {A B : Type 0} (m : Exec A) (k : A → Exec B) (w : World) {a : A} {w' : World}
    → m w ≡ ok a w'
    → (m >>= k) w ≡ k a w'
unfolding ◌>>=◌
bind-ok {A} {B} m k w h =
    ap (λ (x : Outcome A). elim x as (λ y. Outcome B) [ ok a w' ↦ k a w' | err e w' ↦ err e w' ]) h

pub bind-err :
    {A B : Type 0} (m : Exec A) (k : A → Exec B) (w : World) {e : Error} {w' : World}
    → m w ≡ err e w'
    → (m >>= k) w ≡ err e w'
unfolding ◌>>=◌
bind-err {A} {B} m k w h =
    ap (λ (x : Outcome A). elim x as (λ y. Outcome B) [ ok a w' ↦ k a w' | err e w' ↦ err e w' ]) h

module _ {B : Type 0} (w : World) where
  pub refuse_if-step :
      (b : Bool) (e : Error) (k : Unit → Exec B) → b ≡ false → (refuse_if b e >>= k) w ≡ k tt w
  unfolding ◌>>=◌ refuse_if
  refuse_if-step true e k h = absurd (ground arith)
  refuse_if-step false e k h = refl

  pub now-step : (k : String → Exec B) → (now >>= k) w ≡ k (w.env.now w.tick) (next w)
  unfolding ◌>>=◌
  now-step k = refl

  pub row-step :
      {R : Type 0} (o : Option R) (k : R → Exec B) {r : R} → o ≡ some r → (row o >>= k) w ≡ k r w
  unfolding row ◌>>=◌
  row-step o k {r} h = bind-ok (row o) k w (ap (λ x. row x w) h)

  pub if-true : (b : Bool) (m n : Exec B) → b ≡ true → (if b then m else n) w ≡ m w
  if-true b m n h = ap (λ x. (if x then m else n) w) h

  pub if-false : (b : Bool) (m n : Exec B) → b ≡ false → (if b then m else n) w ≡ n w
  if-false b m n h = ap (λ x. (if x then m else n) w) h

  module _ (goes : w.env.fails w.tick ≡ false) where
    pub query-step :
        {A : Type 0} (f : Db → A) (k : A → Exec B) → (query f >>= k) w ≡ k (f w.db) (next w)
    unfolding query
    query-step f k = bind-ok (query f) k w (rw goes refl)

    pub exec-step :
        (f : Db → Db) (k : Unit → Exec B)
        → (exec f >>= k) w ≡ k tt (record (next w) { db = f w.db })
    unfolding exec
    exec-step f k = bind-ok (exec f) k w (rw goes refl)

    pub exec_counted-step :
        (count : Db → ℕ) (f : Db → Db) (k : ℕ → Exec B)
        → (exec_counted count f >>= k) w ≡ k (count w.db) (record (next w) { db = f w.db })
    unfolding exec_counted
    exec_counted-step count f k = bind-ok (exec_counted count f) k w (rw goes refl)
