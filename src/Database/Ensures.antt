-- ===== src/Database/Ensures.antt =====
-- What holds when a call returns, by running it on a state: one rule to each kind of step. A call
-- that raises satisfies every such statement.
use mathlib.Core.Bool.{false≢true}
use mathlib.Core.Path.{subst, subst₂}
use anar_core.Base.{
  ℕ, Bool, true, false, Option, none, some, List, ◌∷◌, ◌≡◌, refl, ap, inl, inr, Bool-cases,
}
use anar_core.Base.Table.{find_where, select_where, update_where, count_where}
use anar_core.Database.Rows.{Db}
use anar_core.Database.Tx.{
  Tx, Error, Result, ok, err, Table, continue, ◌>>=◌, ◌>>◌, pure, lift, gets, or_raise, require,
  when, select, select_one, update, insert,
}

pub record Ensures {A : Type 0} (m : Tx A) (db : Db) (Q : A → Db → Type 0) : Type 0 where
  pub at : (a : A) (db' : Db) → m db ≡ (ok a, db') → Q a db'

ok_value : {A : Type 0} {a b : A} → ok a ≡ ok b → a ≡ b
ok_value h = cc

ok_not_err : {A : Type 0} {a : A} {e : Error} → err e ≡ ok a → ⊥
ok_not_err h = cc

module _ {A : Type 0} {Q : A → Db → Type 0} where
  pub returned : (a : A) {db : Db} → Q a db → Ensures (pure a) db Q
  unfolding pure
  returned a {db} q = record {
    at = λ b db' h. subst₂ Q (ok_value (ap (λ r. r.0) h)) (ap (λ r. r.1) h) q;
  }

  continue_at :
      {B : Type 0} (f : B → Tx A) (r : Result B × Db) (a : A) (db' : Db)
      → ((b : B) (mid : Db) → r ≡ (ok b, mid) → Ensures (f b) mid Q)
      → continue f r ≡ (ok a, db')
      → Q a db'
  continue_at f (ok b, mid) a db' k h = (k b mid refl).at a db' h
  continue_at f (err e, mid) a db' k h = absurd (ok_not_err (ap (λ r. r.0) h))

  -- Any call, and what follows it.
  pub after_call :
      {B : Type 0} (m : Tx B) {f : B → Tx A} {db : Db}
      → ((b : B) (mid : Db) → m db ≡ (ok b, mid) → Ensures (f b) mid Q)
      → Ensures (m >>= f) db Q
  unfolding ◌>>=◌
  after_call m {f} {db} k = record { at = λ a db' h. continue_at f (m db) a db' k h }

  pub after_then :
      {B : Type 0} (m : Tx B) {k : Tx A} {db : Db}
      → ((b : B) (mid : Db) → m db ≡ (ok b, mid) → Ensures k mid Q)
      → Ensures (m >> k) db Q
  unfolding ◌>>◌
  after_then m k = after_call m k

  pub after_require :
      (b : Bool) (e : Error) {k : Tx A} {db : Db}
      → (b ≡ true → Ensures k db Q)
      → Ensures (require b e >> k) db Q
  unfolding require ◌>>◌ ◌>>=◌
  after_require true e k = record { at = λ a db' h. (k refl).at a db' h }
  after_require false e k = record { at = λ a db' h. absurd (ok_not_err (ap (λ r. r.0) h)) }

  or_raise_at :
      {B : Type 0} (o : Option B) (e : Error) {f : B → Tx A} {db : Db}
      → ((b : B) → o ≡ some b → Ensures (f b) db Q)
      → Ensures (or_raise o e >>= f) db Q
  unfolding or_raise ◌>>=◌
  or_raise_at none e k = record { at = λ a db' h. absurd (ok_not_err (ap (λ r. r.0) h)) }
  or_raise_at (some b) e k = record { at = λ a db' h. (k b refl).at a db' h }

  pub after_or_raise :
      {B : Type 0} (o : Option B) (e : Error) {f : B → Tx A} {db : Db}
      → ((b : B) → o ≡ some b → Ensures (f b) db Q)
      → Ensures (or_raise o e >>= f) db Q
  after_or_raise o e k = or_raise_at o e k

  pub after_select_one :
      {B : Type 0} (t : Table B) (p : B → Bool) (e : Error) {f : B → Tx A} {db : Db}
      → ((b : B) → find_where p (t.rows db) ≡ some b → Ensures (f b) db Q)
      → Ensures (select_one t p e >>= f) db Q
  unfolding select_one ◌>>=◌ gets
  after_select_one t p e {f} {db} k = record {
    at = λ a db' h. (or_raise_at (find_where p (t.rows db)) e {f = f} {db = db} k).at a db' h;
  }

  pub after_select_one_then :
      {B : Type 0} (t : Table B) (p : B → Bool) (e : Error) {k : Tx A} {db : Db}
      → ((b : B) → find_where p (t.rows db) ≡ some b → Ensures k db Q)
      → Ensures (select_one t p e >> k) db Q
  unfolding ◌>>◌
  after_select_one_then t p e k = after_select_one t p e k

  pub after_gets :
      {B : Type 0} (g : Db → B) {f : B → Tx A} {db : Db}
      → ((b : B) → b ≡ g db → Ensures (f b) db Q)
      → Ensures (gets g >>= f) db Q
  unfolding gets ◌>>=◌
  after_gets g {f} {db} k = record { at = λ a db' h. (k (g db) refl).at a db' h }

  pub after_select :
      {B : Type 0} (t : Table B) (p : B → Bool) {f : List B → Tx A} {db : Db}
      → ((rows : List B) → rows ≡ select_where p (t.rows db) → Ensures (f rows) db Q)
      → Ensures (select t p >>= f) db Q
  unfolding select ◌>>=◌
  after_select t p {f} {db} k = record {
    at = λ a db' h. (k (select_where p (t.rows db)) refl).at a db' h;
  }

  lift_at :
      {B : Type 0} (r : Result B) {f : B → Tx A} {db : Db}
      → ((b : B) → r ≡ ok b → Ensures (f b) db Q)
      → Ensures (lift r >>= f) db Q
  unfolding lift ◌>>=◌
  lift_at (ok b) k = record { at = λ a db' h. (k b refl).at a db' h }
  lift_at (err e) k = record { at = λ a db' h. absurd (ok_not_err (ap (λ r. r.0) h)) }

  pub after_lift :
      {B : Type 0} (r : Result B) {f : B → Tx A} {db : Db}
      → ((b : B) → r ≡ ok b → Ensures (f b) db Q)
      → Ensures (lift r >>= f) db Q
  after_lift r k = lift_at r k

  pub after_lift_then :
      {B : Type 0} (r : Result B) {k : Tx A} {db : Db}
      → ((b : B) → r ≡ ok b → Ensures k db Q)
      → Ensures (lift r >> k) db Q
  unfolding ◌>>◌
  after_lift_then r k = after_lift r k

  pub after_update :
      {B : Type 0} (t : Table B) (p : B → Bool) (g : B → B) {f : ℕ → Tx A} {db : Db}
      → ((n : ℕ)
          → n ≡ count_where p (t.rows db)
          → Ensures (f n) (t.store (update_where p g (t.rows db)) db) Q)
      → Ensures (update t p g >>= f) db Q
  unfolding update ◌>>=◌
  after_update t p g {f} {db} k = record {
    at = λ a db' h. (k (count_where p (t.rows db)) refl).at a db' h;
  }

  pub after_update_then :
      {B : Type 0} (t : Table B) (p : B → Bool) (g : B → B) {k : Tx A} {db : Db}
      → Ensures k (t.store (update_where p g (t.rows db)) db) Q
      → Ensures (update t p g >> k) db Q
  unfolding ◌>>◌
  after_update_then t p g k = after_update t p g (λ _ _. k)

  pub after_insert_then :
      {B : Type 0} (t : Table B) (allowed : Db → B → Bool) (row : B) {k : Tx A} {db : Db}
      → (allowed db row ≡ true → Ensures k (t.store (row ∷ t.rows db) db) Q)
      → Ensures (insert t allowed row >> k) db Q
  unfolding insert ◌>>◌ ◌>>=◌
  after_insert_then t allowed row {k} {db} rest = record {
    at = λ a db' h. elim (Bool-cases (allowed db row)) [
      | inl e ↦ (rest e).at a db' (rw e at h)
      | inr e ↦ absurd (ok_not_err (ap (λ r. r.0) (rw e at h)))
    ];
  }

-- A last test, and a last INSERT.
pub lastly_require :
    (b : Bool) (e : Error) {db : Db} {Q : Unit {0} → Db → Type 0}
    → (b ≡ true → Q tt db)
    → Ensures (require b e) db Q
unfolding require
lastly_require true e {db} {Q} q = record { at = λ a db' h. subst (Q a) (ap (λ r. r.1) h) (q refl) }
lastly_require false e q = record { at = λ a db' h. absurd (ok_not_err (ap (λ r. r.0) h)) }

-- A statement about a call at its result.
pub ensured :
    {A : Type 0} {Q : A → Db → Type 0} {m : Tx A} {db : Db}
    → ((a : A) (db' : Db) → m db ≡ (ok a, db') → Q a db')
    → Ensures m db Q
ensured q = record { at = q }

pub when_holds :
    (b : Bool) {m : Tx (Unit {0})} {db : Db} {Q : Unit {0} → Db → Type 0}
    → b ≡ true
    → Ensures m db Q
    → Ensures (when b m) db Q
unfolding when
when_holds true h e = e
when_holds false h e = absurd (false≢true h)

pub lastly_when :
    (b : Bool) {m : Tx (Unit {0})} {db : Db} {Q : Unit {0} → Db → Type 0}
    → Ensures m db Q
    → Q tt db
    → Ensures (when b m) db Q
unfolding when
lastly_when true done skipped = done
lastly_when false done skipped = returned tt skipped
