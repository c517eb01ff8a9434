-- ===== src/Store/Account/Signout.antt =====
-- `signout`.
use anar_core.Base.{ℕ, String, ◌&&◌, ◌==◌, nat_eq, is_null}
use anar_core.Platform.{Platform}
use anar_core.Database.Rows.{is_active}
use anar_core.Database.Tx.{
  Tx, Action, Error, ◌>>=◌, ◌>>◌, require, update, with_connection, reading, chain,
}
use anar_core.Database.Schema.{account_session}
use anar_core.Store.Session.{load_account_session}
use anar_core.Store.Cascade.{
  revoke_account_session, revoke_derived, revoke_account_session_mfa_authority,
}

module _ ⦃platform : Platform⦄ where
  -- The transaction.
  unfoldable pub signout_rows : String → ℕ → Tx (Unit {0})
  signout_rows account_session_id now = do
    revoked ←
        update account_session
          (λ r.
            r.account_session_id == account_session_id
            && is_active r.status
            && is_null r.revoked_at)
          (revoke_account_session now)
    require (nat_eq revoked 1) (Error.authority "active account session unavailable")
    revoke_derived account_session_id now
    revoke_account_session_mfa_authority account_session_id now

  -- The clock is read once to check the session and once to revoke it.
  unfoldable pub signout : String → String → ℕ → ℕ → Action (Unit {0})
  signout bearer account_session_id checked_at now =
      chain (reading (load_account_session bearer account_session_id checked_at))
        λ _. with_connection (signout_rows account_session_id now)
