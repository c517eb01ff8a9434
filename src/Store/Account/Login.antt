-- ===== src/Store/Account/Login.antt =====
-- `login`.
use anar_core.Base.{ℕ, ◌+◌, String, true, false, none, ◌&&◌, ◌==◌, not, is_null}
use anar_core.Platform.{Platform, Verdict, verified, mismatch, invalid_hash, failed, seconds}
use anar_core.Database.Rows.{Status, is_active}
use anar_core.Database.Tx.{
  Tx, Action, Error, Result, ok, err, ◌>>=◌, ◌>>◌, pure, lift, select_one, update, insert, when,
  autocommit, reading, chain,
}
use anar_core.Database.Schema.{
  identity, personal_account, account_email, password_credential, account_session,
  account_session_allowed,
}
use anar_core.Store.Input.{ℤ, normalize_email, require_positive_integer, token_digest}
use anar_core.Store.Session.{unauthorized}

pub record LoginDraws : Type 0 where
  pub account_session_id : String
  pub bearer : String
  pub salt : String

-- The columns that the SELECT of `login` joins.
pub record LoginRow : Type 0 where
  pub account_id : String
  pub identity_id : String
  pub password_hash : String
  pub credential_revision : ℕ

-- `if not verify(…)`, where a mismatch and an unreadable hash raise `refused`.
unfoldable pub check_verdict : Error → Verdict → Result (Unit {0})
check_verdict refused (verified true) = ok tt
check_verdict refused (verified false) = err refused
check_verdict refused mismatch = err refused
check_verdict refused invalid_hash = err refused
check_verdict refused failed = err Error.verification

module _ ⦃platform : Platform⦄ where
  -- The query; its tables are joined on their keys.
  unfoldable pub login_row : String → Tx LoginRow
  login_row normalized_email = do
    email ←
        select_one account_email
          (λ r.
            r.normalized_email == normalized_email
            && is_active r.status
            && not (is_null r.verified_at))
          unauthorized
    account ←
        select_one personal_account (λ a. a.account_id == email.account_id && is_active a.status)
          unauthorized
    select_one identity (λ i. i.identity_id == account.identity_id && is_active i.status)
        unauthorized
    credential ←
        select_one password_credential (λ c. c.account_id == email.account_id && is_active c.status)
          unauthorized
    pure (record {
      account_id = email.account_id;
      identity_id = account.identity_id;
      password_hash = credential.password_hash;
      credential_revision = credential.credential_revision;
    })

  -- The statements from the refreshed hash to the new account session.
  unfoldable pub login_rows : String → ℕ → LoginRow → LoginDraws → ℕ → ℕ → Tx (String × String)
  login_rows password ttl row draws rehashed_at now = do
    when (platform.check_needs_rehash row.password_hash) (do
      update password_credential (λ c. c.account_id == row.account_id)
          (λ c. record c {
            password_hash = platform.hash_password draws.salt password;
            updated_at = rehashed_at;
          })
      pure tt)
    bearer_sha256 ← lift (token_digest draws.bearer)
    insert account_session account_session_allowed (record {
      account_session_id = draws.account_session_id;
      bearer_sha256 = bearer_sha256;
      identity_id = row.identity_id;
      account_id = row.account_id;
      credential_revision = row.credential_revision;
      expires_at = now + seconds ttl;
      status = Status.active;
      revoked_at = none;
      created_at = now;
    })
    pure (draws.account_session_id, draws.bearer)

  -- The checks before anything is written.
  unfoldable pub login_checks : String → String → ℤ → Tx (ℕ × LoginRow)
  unfolding check_verdict login_row
  login_checks email password ttl_seconds = do
    normalized_email ← lift (normalize_email email)
    ttl ← lift (require_positive_integer ttl_seconds "account session TTL" none)
    row ← login_row normalized_email
    lift (check_verdict unauthorized (platform.verify_password row.password_hash password))
    pure (ttl, row)

  unfoldable pub login : String → String → ℤ → LoginDraws → ℕ → ℕ → Action (String × String)
  login email password ttl_seconds draws rehashed_at now =
      chain (reading (login_checks email password ttl_seconds))
        λ checked. autocommit (login_rows password checked.0 checked.1 draws rehashed_at now)
