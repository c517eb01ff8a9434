-- ===== src/Store/Session.antt =====
-- Account sessions: `_load_account_session` and `authenticate_account_session`.
use anar_core.Base.{ℕ, String, ◌&&◌, ◌==◌, ltb, nat_eq, is_null}
use anar_core.Platform.{Platform}
use anar_core.Contracts.TypedId.{validate_typed_id}
use anar_core.Database.Rows.{AccountSession, is_active}
use anar_core.Database.Tx.{Tx, Action, Error, ◌>>=◌, ◌>>◌, pure, lift, require, select_one, reading}
use anar_core.Database.Schema.{account_session, password_credential, personal_account, identity}
use anar_core.Store.Input.{token_digest}

abbrev pub unauthorized : Error
unauthorized = Error.authority "unauthorized"

module _ ⦃platform : Platform⦄ where
  -- The joined tables have at most one row for each session, by their keys.
  unfoldable pub load_account_session : String → String → ℕ → Tx AccountSession
  load_account_session bearer account_session_id now = do
    lift (validate_typed_id account_session_id "acs")
    supplied_sha256 ← lift (token_digest bearer)
    row ←
        select_one account_session
          (λ r.
            r.bearer_sha256 == supplied_sha256
            && r.account_session_id == account_session_id
            && is_active r.status
            && is_null r.revoked_at)
          unauthorized
    credential ←
        select_one password_credential (λ c. c.account_id == row.account_id && is_active c.status)
          unauthorized
    select_one personal_account (λ a. a.account_id == row.account_id && is_active a.status)
        unauthorized
    select_one identity (λ i. i.identity_id == row.identity_id && is_active i.status) unauthorized
    require (ltb now row.expires_at) (Error.authority "account session expired")
    require (nat_eq row.credential_revision credential.credential_revision)
        (Error.authority "credential revision stale")
    pure row

  unfoldable pub authenticate_account_session : String → String → ℕ → Action (String × String)
  authenticate_account_session bearer account_session_id now = reading (do
    row ← load_account_session bearer account_session_id now
    pure (row.identity_id, row.account_id))
