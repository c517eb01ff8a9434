-- ===== src/Database/Evolution/Steps.antt =====
-- Calls that only let the database evolve, and how they are put together.
use anar_core.Base.{◌∷◌, Bool, true, false, Option, none, some, ◌≡◌, inl, inr, Bool-cases}
use anar_core.Base.Table.{update_where}
use anar_core.Database.Rows.{Db}
use anar_core.Database.Tx.{
  continue, Tx, Error, Result, ok, err, Table, ◌>>=◌, ◌>>◌, pure, raise, lift, gets, or_raise,
  require, when, select, select_one, update, insert,
}
use anar_core.Database.Evolution.Moves.{Evolution, Evolution-refl, Evolution-trans}

pub record Steps {A : Type 0} (m : Tx A) : Type 0 where
  pub at : (db : Db) → Evolution db (m db).1

module _ {A : Type 0} where
  pub Steps-pure : (a : A) → Steps (pure a)
  unfolding pure
  Steps-pure a = record { at = Evolution-refl }

  pub Steps-raise : (e : Error) → Steps (raise {A = A} e)
  unfolding raise
  Steps-raise e = record { at = Evolution-refl }

  pub Steps-lift : (r : Result A) → Steps (lift r)
  unfolding lift
  Steps-lift r = record { at = Evolution-refl }

  pub Steps-gets : (f : Db → A) → Steps (gets f)
  unfolding gets
  Steps-gets f = record { at = Evolution-refl }

  pub Steps-or_raise : (o : Option A) (e : Error) → Steps (or_raise o e)
  unfolding or_raise
  Steps-or_raise none e = record { at = Evolution-refl }
  Steps-or_raise (some a) e = record { at = Evolution-refl }

  pub Steps-select : (t : Table A) (p : A → Bool) → Steps (select t p)
  unfolding select
  Steps-select t p = record { at = Evolution-refl }

pub Steps-require : (b : Bool) (e : Error) → Steps (require b e)
unfolding require
Steps-require true e = record { at = Evolution-refl }
Steps-require false e = record { at = Evolution-refl }

Steps-continue :
    {A B : Type 0} {f : A → Tx B} (db : Db) (r : Result A × Db)
    → ((a : A) → Steps (f a))
    → Evolution db r.1
    → Evolution db (continue f r).1
Steps-continue db (ok a, db') sf e = Evolution-trans e ((sf a).at db')
Steps-continue db (err x, db') sf e = e

pub Steps-bind :
    {A B : Type 0} {m : Tx A} {f : A → Tx B} → Steps m → ((a : A) → Steps (f a)) → Steps (m >>= f)
unfolding ◌>>=◌
Steps-bind {A} {B} {m} {f} sm sf = record {
  at = λ db. Steps-continue {f = f} db (m db) sf (sm.at db);
}

pub Steps-then : {A B : Type 0} {m : Tx A} {k : Tx B} → Steps m → Steps k → Steps (m >> k)
unfolding ◌>>◌
Steps-then sm sk = Steps-bind sm (λ _. sk)

pub Steps-select_one :
    {A : Type 0} (t : Table A) (p : A → Bool) (e : Error) → Steps (select_one t p e)
unfolding select_one
Steps-select_one t p e = Steps-bind (Steps-gets _) (λ row. Steps-or_raise row e)

pub Steps-when : (b : Bool) {m : Tx (Unit {0})} → Steps m → Steps (when b m)
unfolding when
Steps-when true s = s
Steps-when false s = Steps-pure tt

module _ {A : Type 0} (t : Table A) where
  pub Steps-update :
      (p : A → Bool) (f : A → A)
      → ((db : Db) → Evolution db (t.store (update_where p f (t.rows db)) db))
      → Steps (update t p f)
  unfolding update
  Steps-update p f h = record { at = h }

  pub Steps-insert :
      (allowed : Db → A → Bool) (row : A)
      → ((db : Db) → allowed db row ≡ true → Evolution db (t.store (row ∷ t.rows db) db))
      → Steps (insert t allowed row)
  unfolding insert
  Steps-insert allowed row h = record {
    at = λ db. elim (Bool-cases (allowed db row)) [
      | inl e ↦ rw e (h db e)
      | inr e ↦ rw e (Evolution-refl db)
    ];
  }

pub ruleset steps_rules = (
  Steps-pure, Steps-raise, Steps-lift, Steps-gets, Steps-or_raise, Steps-select, Steps-select_one,
  Steps-require, Steps-bind, Steps-then, Steps-when,
)
