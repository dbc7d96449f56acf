-- ===== src/Store/Moves.antt =====
-- What an action does to the database, one rule for each way to build an action. A relation that is
-- reflexive and transitive holds between the database before an action and after it, whether the
-- action returns or fails, if it holds across each statement.
use nomici_orchestrator.Common.{
  ℕ, ◌≡◌, refl, Bool, true, false, Option, none, some, if◌then◌else◌, Bool-cases, Option-cases,
  String, inl, inr,
}
use nomici_orchestrator.Store.{
  Db, World, Error, Outcome, ok, err, final, Exec, pure, raise, query, attempt, map_error, now,
  new_id, exec, exec_counted, exec_insert, ◌>>=◌, refuse_if, row,
}

pub record Preorder (R : Db → Db → Type 0) : Type 0 where
  pub same : (a : Db) → R a a
  pub trans : (a b c : Db) → R a b → R b c → R a c

-- `m` moves the database along `R`
pub record Moves {A : Type 0} (R : Db → Db → Type 0) (m : Exec A) : Type 0 where
  pub at : (w : World) → R w.db (final (m w)).db

module _ {R : Db → Db → Type 0} (o : Preorder R) where
  module _ {A : Type 0} where
    pub Moves-pure : (a : A) → Moves R (pure a)
    unfolding pure
    Moves-pure a = record { at = λ w. o.same w.db }

    pub Moves-raise : (e : Error) → Moves R (raise {A = A} e)
    unfolding raise
    Moves-raise e = record { at = λ w. o.same w.db }

    pub Moves-query : (f : Db → A) → Moves R (query f)
    unfolding query
    Moves-query f = record {
      at = λ w. elim (Bool-cases (w.env.fails w.tick)) [
        | inl e ↦ rw e (o.same w.db)
        | inr e ↦ rw e (o.same w.db)
      ];
    }

    pub Moves-row : (r : Option A) → Moves R (row r)
    unfolding row
    Moves-row none = Moves-raise _
    Moves-row (some r) = Moves-pure r

    pub Moves-if :
        (b : Bool) (m n : Exec A)
        → (b ≡ true → Moves R m)
        → (b ≡ false → Moves R n)
        → Moves R (if b then m else n)
    Moves-if true m n km kn = km refl
    Moves-if false m n km kn = kn refl

    pub Moves-attempt : (a : A) (m : Exec A) → Moves R m → Moves R (attempt a m)
    unfolding attempt
    Moves-attempt a m km = record { at = λ w. go w (m w) (km.at w) }
      where
        go :
            (w : World) (x : Outcome A)
            → R w.db (final x).db
            → R w.db
                (final (elim x as (λ y. Outcome A) [ ok b w' ↦ ok b w' | err e w' ↦ ok a w' ])).db
        go w (ok b w') h = h
        go w (err e w') h = h

    pub Moves-map_error : (g : Error → Error) (m : Exec A) → Moves R m → Moves R (map_error g m)
    unfolding map_error
    Moves-map_error g m km = record { at = λ w. go w (m w) (km.at w) }
      where
        go :
            (w : World) (x : Outcome A)
            → R w.db (final x).db
            → R w.db
                (final
                  (elim x as (λ y. Outcome A) [ ok b w' ↦ ok b w' | err e w' ↦ err (g e) w' ])).db
        go w (ok b w') h = h
        go w (err e w') h = h

  pub Moves-now : Moves R now
  unfolding now
  Moves-now = record { at = λ w. o.same w.db }

  pub Moves-new_id : (prefix : String) → Moves R (new_id prefix)
  unfolding new_id
  Moves-new_id prefix = record { at = λ w. o.same w.db }

  pub Moves-refuse_if : (b : Bool) (e : Error) → Moves R (refuse_if b e)
  unfolding refuse_if
  Moves-refuse_if true e = Moves-raise e
  Moves-refuse_if false e = Moves-pure tt

  pub Moves-exec : (f : Db → Db) → ((a : Db) → R a (f a)) → Moves R (exec f)
  unfolding exec
  Moves-exec f step = record {
    at = λ w. elim (Bool-cases (w.env.fails w.tick)) [
      | inl e ↦ rw e (o.same w.db)
      | inr e ↦ rw e (step w.db)
    ];
  }

  pub Moves-exec_counted :
      (count : Db → ℕ) (f : Db → Db) → ((a : Db) → R a (f a)) → Moves R (exec_counted count f)
  unfolding exec_counted
  Moves-exec_counted count f step = record {
    at = λ w. elim (Bool-cases (w.env.fails w.tick)) [
      | inl e ↦ rw e (o.same w.db)
      | inr e ↦ rw e (step w.db)
    ];
  }

  pub Moves-exec_insert :
      (f : Db → Option Db) → ((a b : Db) → f a ≡ some b → R a b) → Moves R (exec_insert f)
  unfolding exec_insert
  Moves-exec_insert f step = record {
    at = λ w. elim (Bool-cases (w.env.fails w.tick)) [
      | inl e ↦ rw e (o.same w.db)
      | inr e ↦ rw e (elim (Option-cases (f w.db)) [
        | inl n ↦ rw n (o.same w.db)
        | inr (b, s) ↦ rw s (step w.db b s)
      ])
    ];
  }

  module _ {A B : Type 0} where
    pub Moves-bind :
        (m : Exec A) (f : A → Exec B) → Moves R m → ((a : A) → Moves R (f a)) → Moves R (m >>= f)
    unfolding ◌>>=◌
    Moves-bind m f km kf = record { at = λ w. go w (m w) (km.at w) }
      where
        go :
            (w : World) (x : Outcome A)
            → R w.db (final x).db
            → R w.db
                (final (elim x as (λ y. Outcome B) [ ok a w' ↦ f a w' | err e w' ↦ err e w' ])).db
        go w (ok a w') h = o.trans w.db w'.db (final (f a w')).db h ((kf a).at w')
        go w (err e w') h = h

pub ruleset moves_rules = (
  Moves-pure, Moves-raise, Moves-query, Moves-row, Moves-if, Moves-attempt, Moves-map_error,
  Moves-now, Moves-new_id, Moves-refuse_if, Moves-bind,
)

-- An invariant is the preorder that carries it along.
abbrev pub Carries : (Db → Type 0) → Db → Db → Type 0
Carries P a b = P a → P b

pub Carries-Preorder : (P : Db → Type 0) → Preorder (Carries P)
Carries-Preorder P = record { same = λ a h. h; trans = λ a b c f g h. g (f h) }
