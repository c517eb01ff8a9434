-- ===== src/Store/Challenge.antt =====
-- The tests of a one-time token's row, which the source repeats for each kind of token.
use anar_core.Base.{ℕ, ltb, is_null}
use anar_core.Database.Rows.{Challenge, is_active}
use anar_core.Database.Tx.{Tx, Error, ◌>>◌, require}

-- The four tests that every one-time token with a deadline passes, in the order of the source.
unfoldable pub check_challenge :
    {X : Type 0} → Error → Error → Error → Error → ℕ → ℕ → Challenge X → Tx (Unit {0})
check_challenge unavailable consumed revoked expired expires_at now c = do
  require (is_active c.status) unavailable
  require (is_null c.consumed_at) consumed
  require (is_null c.revoked_at) revoked
  require (ltb now expires_at) expired
