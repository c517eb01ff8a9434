-- ===== src/Store/Replay/Spent.antt =====
-- Spent tokens: their rows stay as they are, and their checks fail.
use mathlib.Core.Path.{subst}
use mathlib.Core.Bool.{false≢true}
use anar_core.Base.{
  ℕ, ◌<◌, String, Bool, true, false, some, List, ◌≡◌, refl, sym, ap, ◌∙◌, ◌==◌, if◌then◌else◌,
  &&-intro, ltb→lt,
}
use anar_core.Base.Table.{find_where}
use anar_core.Database.Rows.{Db, Challenge, is_open, is_active}
use anar_core.Database.Tx.{
  begin, finish, at_rest, Tx, Error, ok, err, Result, Connection, ◌>>=◌, ◌>>◌, statements,
  select_one, Table, Action, immediate,
}
use anar_core.Database.Ensures.{Ensures, after_then, after_require, lastly_require, ensured}
use anar_core.Database.Evolution.Moves.{
  TokensEvolve, closed_stays, Evolution, Evolution-refl, Evolution-trans,
}
use anar_core.Platform.{Platform}
use anar_core.Database.Inversion.{immediate_ok}
use anar_core.Store.Calls.{Call, run}
use anar_core.Store.Evolution.Calls.{run-IsAhead}
use anar_core.Database.Evolution.Steps.{Steps}
use anar_core.Store.Challenge.{check_challenge}

-- The token with this digest is known, and is not active.
abbrev pub IsSpent : {X : Type 0} → String → List (Challenge X) → Type 0
IsSpent {X} d rows =
    (c : Challenge X) × (find_where (λ r. r.token_sha256 == d) rows ≡ some c)
    × (is_active c.status ≡ false)

pub IsSpent-stays :
    {X : Type 0} (d : String) (xs ys : List (Challenge X))
    → TokensEvolve xs ys
    → IsSpent d xs
    → IsSpent d ys
IsSpent-stays d xs ys e (c, found, dead) =
    let (c', found', moves) = e.at d c found in
    let same = closed_stays c c' moves (rw dead refl) in
    (c', found', ap (λ r. is_active r.status) same ∙ dead)

pub check_challenge_ok :
    {X : Type 0} (u c r e : Error) (expires_at now : ℕ) (row : Challenge X) {db : Db}
    → Ensures
        (check_challenge u c r e expires_at now row)
        db
        (λ _ db'. (is_open row ≡ true) × (now < expires_at) × (db' ≡ db))
unfolding check_challenge
check_challenge_ok u c r e expires_at now row = after_require _ _ λ active.
    after_require _ _ λ unconsumed. after_require _ _ λ unrevoked. lastly_require _ _ λ fresh.
      (&&-intro _ _ (&&-intro _ _ active unconsumed) unrevoked, ltb→lt now expires_at fresh, refl)

-- The checks of a token, and what follows them.
pub after_check :
    {X : Type 0} (u c r e : Error) (expires_at now : ℕ) (row : Challenge X) {A : Type 0} {k : Tx A}
    {db : Db} {Q : A → Db → Type 0}
    → (is_open row ≡ true → now < expires_at → Ensures k db Q)
    → Ensures (check_challenge u c r e expires_at now row >> k) db Q
after_check u c r e expires_at now row {A} {k} {db} {Q} rest =
    after_then (check_challenge u c r e expires_at now row) λ v mid h.
      let facts = (check_challenge_ok u c r e expires_at now row).at v mid h in
      subst (λ s. Ensures k s Q) (sym facts.2) (rest facts.0 facts.1)

-- The error of a call that opens a transaction and would raise `e` in it.
abbrev pub refused_with : Error → Connection → Error
refused_with e c = if c.in_transaction then Error.operational else e

finish_fails :
    {A : Type 0} (c : Connection) (r : Result A × Db) {e : Error}
    → r.0 ≡ err e
    → (finish c r).0 ≡ err e
unfolding finish
finish_fails c (ok a, db) h = cc
finish_fails c (err x, db) h = cc

begin_fails :
    {A : Type 0} (b : Bool) (body : Action A) (c : Connection) {e : Error}
    → (body c).0 ≡ err e
    → (begin b body c).0 ≡ err (if b then Error.operational else e)
begin_fails true body c h = refl
begin_fails false body c h = h

pub refused :
    {A : Type 0} (m : Tx A) (e : Error) (c : Connection)
    → (m c.working).0 ≡ err e
    → (immediate m c).0 ≡ err (refused_with e c)
unfolding immediate
refused m e c h =
    begin_fails c.in_transaction (λ d. finish d (m d.working)) c (finish_fails c (m c.working) h)

pub spent_fails :
    {X A : Type 0} (t : Table (Challenge X)) (d : String) (u c r e : Error)
    (expires_at : Challenge X → ℕ) (now : ℕ) (k : Challenge X → Tx A) (db : Db)
    → IsSpent d (t.rows db)
    → ((do
      row ← select_one t (λ r. r.token_sha256 == d) u
      check_challenge u c r e (expires_at row) now row
      k row)
        db).0
      ≡ err u
unfolding select_one check_challenge statements
spent_fails t d u c r e expires_at now k db (row, found, dead) = rw found (rw dead refl)

-- The rows of one kind of token, in a section of the history of a token.
module _ {X : Type 0} (rows : Db → List (Challenge X))
    (evolves : (a b : Db) → Evolution a b → TokensEvolve (rows a) (rows b)) (d : String) where
  -- What only lets the database evolve leaves a spent token spent.
  pub then-IsSpent :
      {A : Type 0} {m : Tx A} {db : Db}
      → Steps m
      → IsSpent d (rows db)
      → Ensures m db (λ _ after. IsSpent d (rows after))
  then-IsSpent {A} {m} {db} s spent = ensured λ a after h.
      IsSpent-stays d (rows db) (rows after)
        (evolves db after (subst (Evolution db) (ap (λ r. r.1) h) (s.at db))) spent

  -- A transaction that leaves the token spent has committed that.
  committed-IsSpent :
      {A : Type 0} (m : Tx A) (c : Connection) {a : A} {c' : Connection}
      → Ensures m c.working (λ _ db. IsSpent d (rows db))
      → immediate m c ≡ (ok a, c')
      → (db : Db) × (c' ≡ at_rest db) × IsSpent d (rows db)
  committed-IsSpent m c {a} s h =
      let ended = immediate_ok m c h in let db = ended.1.0 in (db, ended.1.2, s.at a db ended.1.1)

  -- Whatever the calls, the token that was spent then is seen spent.
  pub IsSpent-after :
      ⦃platform : Platform⦄ {A : Type 0} (m : Tx A) (c : Connection) {a : A} {c' : Connection}
      (calls : List Call)
      → Ensures m c.working (λ _ db. IsSpent d (rows db))
      → immediate m c ≡ (ok a, c')
      → IsSpent d (rows (run calls c').working)
  IsSpent-after m c calls s h =
      let past = committed-IsSpent m c s h in
      let db = past.0 in
      rw past.1 (
        let ahead = run-IsAhead calls (at_rest db) (Evolution-refl db) in
        IsSpent-stays d (rows db) (rows (run calls (at_rest db)).working)
          (evolves db _ (Evolution-trans ahead.0 ahead.1)) past.2)

-- A pair is its parts, so a result alone is a call that returned.
pub with_state : {A S : Type 0} (r : Result A × S) {a : A} → r.0 ≡ ok a → r ≡ (ok a, r.1)
with_state r h = λ i. (h i, r.1)

closed : {X : Type 0} (c : Challenge X) → is_active c.status ≡ false → is_open c ≡ false
closed c dead = rw dead refl

-- A row that is spent is not open.
pub spent_not_open :
    {X : Type 0} (d : String) (rows : List (Challenge X)) (row : Challenge X)
    → IsSpent d rows
    → find_where (λ r. r.token_sha256 == d) rows ≡ some row
    → is_open row ≡ true
    → ⊥
spent_not_open d rows row (c, found, dead) again opened =
    let same : row ≡ c = cc in false≢true (sym (closed c dead) ∙ ap is_open (sym same) ∙ opened)

pub ok_injective : {A : Type 0} {a b : A} → ok a ≡ ok b → a ≡ b
ok_injective h = cc

-- What every evolution keeps holds after calls that only let the database evolve.
pub steps_carry :
    {A : Type 0} {m : Tx A} {db : Db} {Q : A → Db → Type 0}
    → Steps m
    → ((a : A) (after : Db) → Evolution db after → Q a after)
    → Ensures m db Q
steps_carry {A} {m} {db} s keep =
    ensured λ a after h. keep a after (subst (Evolution db) (ap (λ r. r.1) h) (s.at db))
