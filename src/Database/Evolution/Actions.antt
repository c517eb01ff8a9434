-- ===== src/Database/Evolution/Actions.antt =====
-- Whole calls: what is committed evolves, whatever the transactions do.
use anar_core.Base.{Bool, true, false}
use anar_core.Database.Rows.{Db}
use anar_core.Database.Tx.{
  Tx, Error, Result, ok, err, Action, Connection, begin, finish, immediate, with_connection,
  autocommit, reading, chain, catching_integrity, answer, leave_open, chain_end,
}
use anar_core.Database.Evolution.Moves.{Evolution, Evolution-refl, Evolution-trans}
use anar_core.Database.Evolution.Steps.{Steps}

-- What is on disk evolves into what the connection sees.
abbrev pub IsAhead : Connection → Type 0
IsAhead c = Evolution c.committed c.working

pub record Advances {A : Type 0} (m : Action A) : Type 0 where
  pub at : (c : Connection) → IsAhead c → Evolution c.committed (m c).1.committed × IsAhead (m c).1

module _ {A : Type 0} where
  finish-Advances :
      (c : Connection) (r : Result A × Db)
      → Evolution c.committed r.1
      → Evolution c.committed (finish c r).1.committed × IsAhead (finish c r).1
  unfolding finish
  finish-Advances c (ok a, db) e = (e, Evolution-refl db)
  finish-Advances c (err x, db) e = (Evolution-refl c.committed, Evolution-refl c.committed)

  begin-Advances : (b : Bool) {body : Action A} → Advances body → Advances (begin b body)
  begin-Advances true s = record { at = λ c ahead. (Evolution-refl c.committed, ahead) }
  begin-Advances false s = s

  pub Advances-immediate : {m : Tx A} → Steps m → Advances (immediate m)
  unfolding immediate
  Advances-immediate {m} s = record {
    at = λ c.
        (begin-Advances c.in_transaction {body = λ d. finish d (m d.working)} (record {
          at = λ d ahead. finish-Advances d (m d.working) (Evolution-trans ahead (s.at d.working));
        })).at
          c;
  }

  pub Advances-with_connection : {m : Tx A} → Steps m → Advances (with_connection m)
  unfolding with_connection
  Advances-with_connection {m} s = record {
    at = λ c ahead. finish-Advances c (m c.working) (Evolution-trans ahead (s.at c.working));
  }

  autocommit-Advances :
      (c : Connection) (r : Result A × Db)
      → Evolution c.committed r.1
      → Evolution c.committed (leave_open c r).1.committed × IsAhead (leave_open c r).1
  autocommit-Advances c (ok a, db) e = (e, Evolution-refl db)
  autocommit-Advances c (err x, db) e = (Evolution-refl c.committed, e)

  pub Advances-autocommit : {m : Tx A} → Steps m → Advances (autocommit m)
  unfolding autocommit
  Advances-autocommit {m} s = record {
    at = λ c ahead. autocommit-Advances c (m c.working) (Evolution-trans ahead (s.at c.working));
  }

  pub Advances-reading : (m : Tx A) → Advances (reading m)
  unfolding reading
  Advances-reading m = record { at = λ c ahead. (Evolution-refl c.committed, ahead) }

  pub Advances-answer : (r : Result A) → Advances (answer r)
  unfolding answer
  Advances-answer r = record { at = λ c ahead. (Evolution-refl c.committed, ahead) }

  pub Advances-catching_integrity :
      (e : Error) {m : Action A} → Advances m → Advances (catching_integrity e m)
  unfolding catching_integrity
  Advances-catching_integrity e s = record { at = s.at }

chain_end-Advances :
    {A B : Type 0} {f : A → Action B} (c : Connection) (r : Result A × Connection)
    → ((a : A) → Advances (f a))
    → Evolution c.committed r.1.committed × IsAhead r.1
    → Evolution c.committed (chain_end f r).1.committed × IsAhead (chain_end f r).1
chain_end-Advances {f} c (ok a, c') sf (e, ahead) =
    let next = (sf a).at c' ahead in (Evolution-trans e next.0, next.1)
chain_end-Advances c (err x, c') sf (e, ahead) = (e, ahead)

pub Advances-chain :
    {A B : Type 0} {m : Action A} {f : A → Action B}
    → Advances m
    → ((a : A) → Advances (f a))
    → Advances (chain m f)
unfolding chain
Advances-chain {m} {f} sm sf = record {
  at = λ c ahead. chain_end-Advances {f = f} c (m c) sf (sm.at c ahead);
}

pub ruleset advance_rules = (
  Advances-immediate, Advances-with_connection, Advances-autocommit, Advances-reading,
  Advances-answer, Advances-catching_integrity, Advances-chain,
)
