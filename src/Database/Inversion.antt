-- ===== src/Database/Inversion.antt =====
-- What a call that returned must have passed, step by step.
use anar_core.Base.{
  ℕ, String, Bool, true, false, Option, none, some, List, ◌≡◌, refl, ap, ◌∙◌, ◌==◌, ◌&&◌, eq_refl,
  arith,
}
use anar_core.Base.Table.{find_where, update_where, count_where, find_where-update}
use anar_core.Database.Rows.{Db, Challenge, is_open, consume}
use anar_core.Database.Tx.{
  Tx, Error, Result, ok, err, Table, continue, ◌>>=◌, ◌>>◌, lift, gets, or_raise, require,
  select_one, update, Action, Connection, at_rest, begin, finish, immediate, reading, chain,
  with_connection, chain_end,
}

continue_ok :
    {A B : Type 0} (f : A → Tx B) (r : Result A × Db) {b : B} {db' : Db}
    → continue f r ≡ (ok b, db')
    → (a : A) × (mid : Db) × (r ≡ (ok a, mid)) × (f a mid ≡ (ok b, db'))
continue_ok f (ok a, mid) h = (a, mid, refl, h)
continue_ok f (err e, mid) h = cc

pub bind_ok :
    {A B : Type 0} (m : Tx A) (f : A → Tx B) (db : Db) {b : B} {db' : Db}
    → (m >>= f) db ≡ (ok b, db')
    → (a : A) × (mid : Db) × (m db ≡ (ok a, mid)) × (f a mid ≡ (ok b, db'))
unfolding ◌>>=◌
bind_ok m f db h = continue_ok f (m db) h

pub then_ok :
    {A B : Type 0} (m : Tx A) (k : Tx B) (db : Db) {b : B} {db' : Db}
    → (m >> k) db ≡ (ok b, db')
    → (a : A) × (mid : Db) × (m db ≡ (ok a, mid)) × (k mid ≡ (ok b, db'))
unfolding ◌>>◌
then_ok m k db h = bind_ok m (λ _. k) db h

pub require_ok :
    (b : Bool) (e : Error) (db : Db) {u : Unit {0}} {db' : Db}
    → require b e db ≡ (ok u, db')
    → (b ≡ true) × (db' ≡ db)
unfolding require
require_ok true e db h = (refl, ground arith)
require_ok false e db h = cc

pub or_raise_ok :
    {A : Type 0} (o : Option A) (e : Error) (db : Db) {a : A} {db' : Db}
    → or_raise o e db ≡ (ok a, db')
    → (o ≡ some a) × (db' ≡ db)
unfolding or_raise
or_raise_ok none e db h = cc
or_raise_ok (some a) e db h = (cc, cc)

pub select_one_ok :
    {A : Type 0} (t : Table A) (p : A → Bool) (e : Error) (db : Db) {a : A} {db' : Db}
    → select_one t p e db ≡ (ok a, db')
    → (find_where p (t.rows db) ≡ some a) × (db' ≡ db)
unfolding select_one ◌>>=◌ gets
select_one_ok t p e db h = or_raise_ok (find_where p (t.rows db)) e db h

pub update_ok :
    {A : Type 0} (t : Table A) (p : A → Bool) (f : A → A) (db : Db) {n : ℕ} {db' : Db}
    → update t p f db ≡ (ok n, db')
    → (n ≡ count_where p (t.rows db)) × (db' ≡ t.store (update_where p f (t.rows db)) db)
unfolding update
update_ok t p f db h = (cc, cc)

pub lift_ok :
    {A : Type 0} (r : Result A) (db : Db) {a : A} {db' : Db}
    → lift r db ≡ (ok a, db')
    → (r ≡ ok a) × (db' ≡ db)
unfolding lift
lift_ok r db h = (cc, cc)

chain_end_ok :
    {A B : Type 0} (f : A → Action B) (r : Result A × Connection) {b : B} {c' : Connection}
    → chain_end f r ≡ (ok b, c')
    → (a : A) × (mid : Connection) × (r ≡ (ok a, mid)) × (f a mid ≡ (ok b, c'))
chain_end_ok f (ok a, mid) h = (a, mid, refl, h)
chain_end_ok f (err e, mid) h = cc

-- A call that first reads and then runs a transaction.
pub reading_ok :
    {A B : Type 0} (m : Tx A) (f : A → Action B) (c : Connection) {b : B} {c' : Connection}
    → chain (reading m) f c ≡ (ok b, c')
    → (a : A) × ((m c.working).0 ≡ ok a) × (f a c ≡ (ok b, c'))
unfolding chain reading
reading_ok m f c h =
    let (a, mid, e, rest) = chain_end_ok f ((m c.working).0, c) h in
    (a, ap (λ r. r.0) e, ap (f a) (ap (λ r. r.1) e) ∙ rest)

finish_ok :
    {A : Type 0} (c : Connection) (r : Result A × Db) {a : A} {c' : Connection}
    → finish c r ≡ (ok a, c')
    → (db' : Db) × (r ≡ (ok a, db')) × (c' ≡ at_rest db')
unfolding finish
finish_ok c (ok a, db') h = (db', cc, cc)
finish_ok c (err e, db') h = cc

begin_ok :
    {A : Type 0} (b : Bool) (body : Action A) (c : Connection) {a : A} {c' : Connection}
    → begin b body c ≡ (ok a, c')
    → (b ≡ false) × (body c ≡ (ok a, c'))
begin_ok true body c h = cc
begin_ok false body c h = (refl, h)

-- A transaction that returned has committed what its body left, and was not nested.
pub immediate_ok :
    {A : Type 0} (m : Tx A) (c : Connection) {a : A} {c' : Connection}
    → immediate m c ≡ (ok a, c')
    → (c.in_transaction ≡ false) × ((db' : Db) × (m c.working ≡ (ok a, db')) × (c' ≡ at_rest db'))
unfolding immediate
immediate_ok m c h =
    let (outside, ended) = begin_ok c.in_transaction (λ d. finish d (m d.working)) c h in
    (outside, finish_ok c (m c.working) ended)

-- The UPDATE that consumes the token that a query by its digest has found.
pub consume-found :
    {X : Type 0} (d : String) (c : Challenge X) (now : ℕ) (xs : List (Challenge X))
    → find_where (λ r. r.token_sha256 == d) xs ≡ some c
    → is_open c ≡ true
    → find_where
        (λ r. r.token_sha256 == d)
        (update_where (λ r. r.challenge_id == c.challenge_id && is_open r) (consume now) xs)
      ≡ some (consume now c)
consume-found d c now xs h o =
    find_where-update (λ r. r.token_sha256 == d)
      (λ r. r.challenge_id == c.challenge_id && is_open r) (consume now) xs (λ r. refl)
    ∙ rw h (rw (eq_refl c.challenge_id) (rw o refl))

pub with_connection_ok :
    {A : Type 0} (m : Tx A) (c : Connection) {a : A} {c' : Connection}
    → with_connection m c ≡ (ok a, c')
    → (db' : Db) × (m c.working ≡ (ok a, db')) × (c' ≡ at_rest db')
unfolding with_connection
with_connection_ok m c h = finish_ok c (m c.working) h
