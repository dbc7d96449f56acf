-- ===== src/Store/Leads.antt =====
-- What an action does to the database from a given world, one rule for each way to build an action.
use nomici_orchestrator.Common.{
  arith, ◌≡◌, refl, Bool, true, false, Option, none, some, if◌then◌else◌, Bool-cases, Option-cases,
  String, inl, inr,
}
use nomici_orchestrator.Store.{
  Db, World, Error, Outcome, ok, err, final, Exec, query, now, exec, exec_insert, ◌>>=◌, refuse_if,
  row,
}
use nomici_orchestrator.Store.Moves.{Moves, Moves-query, Preorder}

-- `m`, run in the world `w`, moves the database along `R`. In these rules the rest of an action may
-- use what the part before it returned.
pub record Leads {A : Type 0} (R : Db → Db → Type 0) (m : Exec A) (w : World) : Type 0 where
  pub to : R w.db (final (m w)).db

pub Moves-Leads :
    {A : Type 0} {R : Db → Db → Type 0} {m : Exec A} → Moves R m → (w : World) → Leads R m w
Moves-Leads h w = record { to = h.at w }

pub Leads-Moves :
    {A : Type 0} {R : Db → Db → Type 0} {m : Exec A} → ((w : World) → Leads R m w) → Moves R m
Leads-Moves h = record { at = λ w. (h w).to }

pub if-Leads :
    {B : Type 0} {R : Db → Db → Type 0} (b : Bool) (m n : Exec B) (w : World)
    → (b ≡ true → Leads R m w)
    → (b ≡ false → Leads R n w)
    → Leads R (if b then m else n) w
if-Leads true m n w km kn = km refl
if-Leads false m n w km kn = kn refl

module _ {A B : Type 0} {R : Db → Db → Type 0} (o : Preorder R) where
  pub bind-Leads :
      (m : Exec A) (f : A → Exec B) (w : World)
      → Leads R m w
      → ((a : A) (w' : World) → m w ≡ ok a w' → Leads R (f a) w')
      → Leads R (m >>= f) w
  unfolding ◌>>=◌
  bind-Leads m f w km kf = record { to = go (m w) refl km.to }
    where
      go :
          (x : Outcome A)
          → m w ≡ x
          → R w.db (final x).db
          → R w.db
              (final (elim x as (λ y. Outcome B) [ ok a w' ↦ f a w' | err e w' ↦ err e w' ])).db
      go (ok a w') e h = o.trans w.db w'.db (final (f a w')).db h (kf a w' e).to
      go (err e w') _ h = h

  pub query-Leads :
      (f : Db → A) (k : A → Exec B) (w : World)
      → ((w' : World) → w'.db ≡ w.db → Leads R (k (f w.db)) w')
      → Leads R (query f >>= k) w
  unfolding query
  query-Leads f k w h =
      bind-Leads (query f) k w (Moves-Leads (Moves-query o f) w)
        (λ a w' e. let same : a ≡ f w.db = ground arith in rw same (h w' (ground arith)))

  pub row-Leads :
      (r : Option A) (k : A → Exec B) (w : World)
      → ((a : A) → r ≡ some a → Leads R (k a) w)
      → Leads R (row r >>= k) w
  unfolding row ◌>>=◌
  row-Leads none k w h = record { to = o.same w.db }
  row-Leads (some a) k w h = record { to = (h a refl).to }

module _ {B : Type 0} {R : Db → Db → Type 0} (o : Preorder R) where
  -- a statement, and then what moves the database whatever its state is
  pub exec-Leads :
      (f : Db → Db) (k : Unit → Exec B) (w : World)
      → R w.db (f w.db)
      → ((u : Unit) → Moves R (k u))
      → Leads R (exec f >>= k) w
  unfolding exec
  exec-Leads f k w h km =
      bind-Leads o (exec f) k w
        (record {
          to = elim (Bool-cases (w.env.fails w.tick)) [
            | inl e ↦ rw e (o.same w.db)
            | inr e ↦ rw e h
          ];
        })
        (λ u w' e. Moves-Leads (km u) w')

  pub now-Leads :
      (k : String → Exec B) (w : World)
      → ((at : String) (w' : World) → w'.db ≡ w.db → Leads R (k at) w')
      → Leads R (now >>= k) w
  unfolding now
  now-Leads k w h =
      bind-Leads o now k w (record { to = o.same w.db }) (λ at w' e. h at w' (ground arith))

  pub refuse_if-Leads :
      (b : Bool) (e : Error) (k : Unit → Exec B) (w : World)
      → (b ≡ false → Leads R (k tt) w)
      → Leads R (refuse_if b e >>= k) w
  unfolding refuse_if ◌>>=◌
  refuse_if-Leads true e k w h = record { to = o.same w.db }
  refuse_if-Leads false e k w h = record { to = (h refl).to }

module _ {R : Db → Db → Type 0} (o : Preorder R) where
  pub exec_insert-Leads :
      (f : Db → Option Db) (w : World)
      → ((b : Db) → f w.db ≡ some b → R w.db b)
      → Leads R (exec_insert f) w
  unfolding exec_insert
  exec_insert-Leads f w step = record {
    to = elim (Bool-cases (w.env.fails w.tick)) [
      | inl e ↦ rw e (o.same w.db)
      | inr e ↦ rw e (elim (Option-cases (f w.db)) [
        | inl n ↦ rw n (o.same w.db)
        | inr (b, s) ↦ rw s (step b s)
      ])
    ];
  }
