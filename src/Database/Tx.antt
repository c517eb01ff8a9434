-- ===== src/Database/Tx.antt =====
-- Calls of the store as state and exception: a `Tx` runs inside a transaction, on the rows that the
-- connection sees; an `Action` runs on the connection, with its commits and rollbacks.
use anar_core.Base.{ℕ, String, Bool, true, false, Option, none, some, List, ◌∷◌, if◌then◌else◌, ltb}
use anar_core.Base.Table.{find_where, select_where, count_where, update_where}
use anar_core.Database.Rows.{Db}

-- `authority m` is `AuthorityError(m)`. The next four are the `ContractError`s of
-- anar_core_contracts, `contract m` with its message; `integrity` is `sqlite3.IntegrityError`, and
-- `operational` is `sqlite3.OperationalError`; `verification` is an argon2 VerificationError that the
-- store does not catch; `bad_json` is a JSONDecodeError, `type_error` a TypeError, and `bad_document`
-- what Python raises where a document that the database holds has not the expected keys. `overflow` is
-- the OverflowError of an integer that has no 64 bits.
pub data Error : Type 0 where
  authority : String → Error
  invalid_identifier : String → Error
  prefix_mismatch : String → String → Error
  invalid_symbol : String → Error
  contract : String → Error
  integrity operational verification bad_json type_error bad_document overflow : Error

pub data Result {ℓ} (A : Type ℓ) : Type ℓ where
  ok : A → Result A
  err : Error → Result A

-- What was written stays written when an exception is raised, until the transaction rolls back.
abbrev pub Tx : Type 0 → Type 0
Tx A = Db → Result A × Db

-- The rest of a call, after a first part that ended so.
abbrev pub continue : {A B : Type 0} → (A → Tx B) → Result A × Db → Result B × Db
continue f (ok a, db) = f a db
continue f (err e, db) = (err e, db)

infixl 5 ◌>>=◌ ◌>>◌
unfoldable pub ◌>>=◌ : {A B : Type 0} → Tx A → (A → Tx B) → Tx B
◌>>=◌ m f db = continue f (m db)

unfoldable pub ◌>>◌ : {A B : Type 0} → Tx A → Tx B → Tx B
m >> k = m >>= λ _. k

module _ {A : Type 0} where
  unfoldable pub pure : A → Tx A
  pure a db = (ok a, db)

  unfoldable pub raise : Error → Tx A
  raise e db = (err e, db)

  -- A computation that reads no row.
  unfoldable pub lift : Result A → Tx A
  lift r db = (r, db)

  unfoldable pub gets : (Db → A) → Tx A
  gets f db = (ok (f db), db)

  -- `if row is None: raise e`
  unfoldable pub or_raise : Option A → Error → Tx A
  or_raise none e db = (err e, db)
  or_raise (some a) e db = (ok a, db)

-- `if not b: raise e`
unfoldable pub require : Bool → Error → Tx (Unit {0})
require true e db = (ok tt, db)
require false e db = (err e, db)

-- An integer as an argument of a statement: SQLite has 64 bits, with the sign. It is bound after the
-- implicit BEGIN of an INSERT.
abbrev pub bind_integer : ℕ → Tx (Unit {0})
bind_integer n = require (ltb n 9223372036854775808) Error.overflow

-- `if b: m`
unfoldable pub when : Bool → Tx (Unit {0}) → Tx (Unit {0})
when true m = m
when false m = pure tt

-- A table as a part of the database.
pub record Table (A : Type 0) : Type 0 where
  pub rows : Db → List A
  pub store : List A → Db → Db

module _ {A : Type 0} where
  unfoldable pub select : Table A → (A → Bool) → Tx (List A)
  select t p db = (ok (select_where p (t.rows db)), db)

  -- `SELECT … WHERE p`, `fetchone()`, and `if row is None: raise e`
  unfoldable pub select_one : Table A → (A → Bool) → Error → Tx A
  select_one t p e = gets (λ db. find_where p (t.rows db)) >>= λ row. or_raise row e

  -- An `UPDATE` no constraint of the schema can refuse. The result is its `rowcount`.
  unfoldable pub update : Table A → (A → Bool) → (A → A) → Tx ℕ
  update t p f db = (ok (count_where p (t.rows db)), t.store (update_where p f (t.rows db)) db)

  -- An `INSERT` whose row has to meet the constraints `allowed`; one that does not leaves no trace.
  unfoldable pub insert : Table A → (Db → A → Bool) → A → Tx (Unit {0})
  insert t allowed row db =
      if allowed db row then (ok tt, t.store (row ∷ t.rows db) db) else (err Error.integrity, db)

-- Named on an `unfolding` line, this opens all of the above.
unfoldable pub statements : Bool
unfolding ◌>>=◌ ◌>>◌ pure raise lift gets or_raise require when select select_one update insert
statements = true

-- The connection: the rows on disk, the rows that it sees, and whether a transaction is open.
pub record Connection : Type 0 where
  pub committed : Db
  pub working : Db
  pub in_transaction : Bool

-- No transaction is open.
abbrev pub at_rest : Db → Connection
at_rest db = record { committed = db; working = db; in_transaction = false }

abbrev pub Action : Type 0 → Type 0
Action A = Connection → Result A × Connection

-- `connection.commit()` and `connection.rollback()`.
unfoldable pub commit : Connection → Connection
commit c = at_rest c.working

unfoldable pub rollback : Connection → Connection
rollback c = at_rest c.committed

module _ {A : Type 0} where
  -- The end of a transaction whose body ended so, on these rows.
  unfoldable pub finish : Connection → Result A × Db → Result A × Connection
  unfolding commit rollback
  finish c (ok a, db) = (ok a, commit (record c { working = db }))
  finish c (err e, db) = (err e, rollback c)

  -- `execute("BEGIN IMMEDIATE")`, which is refused inside a transaction.
  abbrev pub begin : Bool → Action A → Action A
  begin true body c = (err Error.operational, c)
  begin false body c = body c

  -- BEGIN IMMEDIATE, then `try: m; commit()`, `except: rollback(); raise`
  unfoldable pub immediate : Tx A → Action A
  unfolding finish
  immediate m c = begin c.in_transaction (λ d. finish d (m d.working)) c

  -- `with self.connection: m`
  unfoldable pub with_connection : Tx A → Action A
  unfolding finish
  with_connection m c = finish c (m c.working)

  -- The end of statements with no handler: an exception leaves the transaction open.
  abbrev pub leave_open : Connection → Result A × Db → Result A × Connection
  leave_open c (ok a, db) = (ok a, at_rest db)
  leave_open c (err e, db) = (err e, record c { working = db; in_transaction = true })

  -- One statement or more, the first of which opens a transaction, then `commit()`.
  unfoldable pub autocommit : Tx A → Action A
  autocommit m c = leave_open c (m c.working)

  -- Statements that only read.
  unfoldable pub reading : Tx A → Action A
  reading m c = ((m c.working).0, c)

-- A call that touches no row.
unfoldable pub answer : {A : Type 0} → Result A → Action A
answer r c = (r, c)

-- The rest of a call on the connection.
abbrev pub chain_end :
    {A B : Type 0} → (A → Action B) → Result A × Connection → Result B × Connection
chain_end f (ok a, c) = f a c
chain_end f (err e, c) = (err e, c)

-- `m` and then `f`, on the connection.
unfoldable pub chain : {A B : Type 0} → Action A → (A → Action B) → Action B
chain m f c = chain_end f (m c)

-- `except sqlite3.IntegrityError as exc: raise e from exc`
unfoldable pub on_integrity : {A : Type 0} → Error → Result A → Result A
on_integrity e (ok a) = ok a
on_integrity e (err Error.integrity) = err e
on_integrity e (err x) = err x

unfoldable pub catching_integrity : {A : Type 0} → Error → Action A → Action A
unfolding on_integrity
catching_integrity e m c = (on_integrity e (m c).0, (m c).1)

-- Named on an `unfolding` line, this opens the transactions and their statements.
unfoldable pub transactions : Bool
unfolding statements finish immediate with_connection autocommit reading answer chain
    catching_integrity
transactions = true
