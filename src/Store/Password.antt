-- ===== src/Store/Password.antt =====
-- Passwords: `change_password`, `issue_password_reset` and `consume_password_reset`.
use anar_core.Base.{ℕ, ◌+◌, String, true, false, Option, none, ◌&&◌, ◌==◌, not, nat_eq, is_null}
use anar_core.Platform.{Platform, Verdict, verified, mismatch, invalid_hash, failed, seconds}
use anar_core.Database.Rows.{Status, PasswordCredential, is_active, is_open, consume, revoke}
use anar_core.Database.Tx.{
  Tx, Action, Error, Result, ok, err, ◌>>=◌, ◌>>◌, pure, lift, gets, require, select_one, update,
  insert, when, immediate, with_connection, reading, chain,
}
use anar_core.Database.Schema.{
  account_email, personal_account, password_credential, password_reset_challenge, reset_allowed,
}
use anar_core.Store.Input.{
  ℤ, normalize_email, require_password, require_positive_integer, token_digest,
}
use anar_core.Store.Challenge.{check_challenge}
use anar_core.Store.Session.{load_account_session}
use anar_core.Store.Cascade.{revoke_account_authority}
use anar_core.Store.Account.Login.{check_verdict}
use anar_core.Store.Mfa.Purpose.{active_mfa_authenticator}
use anar_core.Store.Mfa.StepUp.{consume_mfa_step_up_for_action}
use anar_core.Store.Mfa.Recovery.{supplied_token}

abbrev pub credential_unavailable : Error
credential_unavailable = Error.authority "active credential unavailable"

abbrev pub password_unchanged : Error
password_unchanged = Error.authority "new password must differ from current password"

abbrev pub reset_unavailable : Error
reset_unavailable = Error.authority "password reset unavailable"

-- `same_password = …; if same_password: raise`
unfoldable pub check_differs : Verdict → Result (Unit {0})
check_differs (verified true) = err password_unchanged
check_differs (verified false) = ok tt
check_differs mismatch = ok tt
check_differs invalid_hash = err credential_unavailable
check_differs failed = err Error.verification

-- `SET password_hash = ?, credential_revision = credential_revision + 1, updated_at = ?`
abbrev pub replaced : String → ℕ → PasswordCredential → PasswordCredential
replaced replacement_hash now c = record c {
  password_hash = replacement_hash;
  credential_revision = c.credential_revision + 1;
  updated_at = now;
}

-- The UPDATE of a password, which has to reach one row.
unfoldable pub replace_hash : String → String → String → ℕ → Tx (Unit {0})
replace_hash account_id credential_id replacement_hash now = do
  updated ←
      update password_credential
        (λ c. c.account_id == account_id && c.credential_id == credential_id && is_active c.status)
        (replaced replacement_hash now)
  require (nat_eq updated 1) credential_unavailable

-- What a change of password knows after its checks.
pub record PasswordChange : Type 0 where
  pub account_id : String
  pub credential_id : String
  pub replacement_hash : String

pub record ResetDraws : Type 0 where
  pub reset_id : String
  pub token : String

module _ ⦃platform : Platform⦄ where
  unfoldable pub change_checks :
      String → String → String → String → String → String → ℕ → Tx PasswordChange
  unfolding check_verdict check_differs
  change_checks bearer account_session_id current_password new_password repeat_password salt
        checked_at =
      do
        account_session ← load_account_session bearer account_session_id checked_at
        supplied_new ← lift (require_password new_password)
        require (supplied_new == repeat_password) (Error.authority "new passwords do not match")
        credential ←
            select_one password_credential
              (λ c. c.account_id == account_session.account_id && is_active c.status)
              credential_unavailable
        lift (
            check_verdict (Error.authority "current password invalid")
              (platform.verify_password credential.password_hash current_password))
        lift (check_differs (platform.verify_password credential.password_hash supplied_new))
        pure (record {
          account_id = account_session.account_id;
          credential_id = credential.credential_id;
          replacement_hash = platform.hash_password salt supplied_new;
        })

  -- The step-up that `change_password` and `request_email_change` ask of an account with an
  -- authenticator.
  unfoldable pub require_step_up :
      String → String → Option String → String → Error → ℕ → Tx (Unit {0})
  require_step_up account_id account_session_id step_up_token purpose missing now = do
    authenticator ← gets (active_mfa_authenticator account_id)
    when (not (is_null authenticator)) (do
      token ← supplied_token step_up_token missing
      consume_mfa_step_up_for_action account_id account_session_id token purpose now
      pure tt)

  unfoldable pub change_rows : PasswordChange → String → Option String → ℕ → Tx (Unit {0})
  unfolding require_step_up replace_hash
  change_rows change account_session_id step_up_token now = do
    require_step_up change.account_id account_session_id step_up_token "password.change"
        (Error.authority "MFA step-up required for password change") now
    replace_hash change.account_id change.credential_id change.replacement_hash now
    update password_reset_challenge (λ r. r.account_id == change.account_id && is_open r)
        (revoke now)
    revoke_account_authority change.account_id now

  unfoldable pub change_password :
      String
      → String
      → String
      → String
      → String
      → Option String
      → String
      → ℕ
      → ℕ
      → Action (Unit {0})
  unfolding change_checks change_rows
  change_password bearer account_session_id current_password new_password repeat_password
        step_up_token salt checked_at now =
      chain
        (reading (
          change_checks bearer account_session_id current_password new_password repeat_password salt
            checked_at))
        λ change. immediate (change_rows change account_session_id step_up_token now)

  -- The account whose password may be reset, and the lifetime of the challenge.
  unfoldable pub reset_checks : String → ℤ → ResetDraws → Tx (String × ℕ × String)
  reset_checks email ttl_seconds draws = do
    normalized_email ← lift (normalize_email email)
    ttl ← lift (require_positive_integer ttl_seconds "password reset TTL" none)
    row ←
        select_one account_email
          (λ r.
            r.normalized_email == normalized_email
            && is_active r.status
            && not (is_null r.verified_at))
          reset_unavailable
    select_one personal_account (λ a. a.account_id == row.account_id && is_active a.status)
        reset_unavailable
    select_one password_credential (λ c. c.account_id == row.account_id && is_active c.status)
        reset_unavailable
    digest ← lift (token_digest draws.token)
    pure (row.account_id, ttl, digest)

  unfoldable pub issue_reset_rows : String → ℕ → String → ResetDraws → ℕ → Tx (String × String)
  issue_reset_rows account_id ttl digest draws now = do
    update password_reset_challenge (λ r. r.account_id == account_id && is_open r) (revoke now)
    insert password_reset_challenge reset_allowed (record {
      challenge_id = draws.reset_id;
      token_sha256 = digest;
      account_id = account_id;
      consumed_at = none;
      revoked_at = none;
      status = Status.active;
      created_at = now;
      details = record { expires_at = now + seconds ttl };
    })
    pure (draws.reset_id, draws.token)

  unfoldable pub issue_password_reset : String → ℤ → ResetDraws → ℕ → Action (String × String)
  unfolding reset_checks issue_reset_rows
  issue_password_reset email ttl_seconds draws now =
      chain (reading (reset_checks email ttl_seconds draws))
        λ checked. with_connection (issue_reset_rows checked.0 checked.1 checked.2 draws now)

  unfoldable pub consume_reset_rows : String → String → String → ℕ → Tx String
  unfolding check_challenge check_differs replace_hash
  consume_reset_rows digest supplied_new salt now = do
    challenge ←
        select_one password_reset_challenge (λ r. r.token_sha256 == digest) reset_unavailable
    check_challenge reset_unavailable (Error.authority "password reset consumed")
        (Error.authority "password reset revoked") (Error.authority "password reset expired")
        challenge.details.expires_at now challenge
    credential ←
        select_one password_credential
          (λ c. c.account_id == challenge.account_id && is_active c.status) credential_unavailable
    lift (check_differs (platform.verify_password credential.password_hash supplied_new))
    replace_hash challenge.account_id credential.credential_id
        (platform.hash_password salt supplied_new) now
    consumed ←
        update password_reset_challenge (λ r. r.challenge_id == challenge.challenge_id && is_open r)
          (consume now)
    require (nat_eq consumed 1) reset_unavailable
    update password_reset_challenge
        (λ r.
          r.account_id == challenge.account_id
          && not (r.challenge_id == challenge.challenge_id)
          && is_open r)
        (revoke now)
    revoke_account_authority challenge.account_id now
    pure challenge.account_id

  -- The checks of the arguments of `consume_password_reset`: the digest and the new password.
  unfoldable pub reset_input : String → String → String → Tx (String × String)
  reset_input token new_password repeat_password = do
    digest ← lift (token_digest token)
    supplied_new ← lift (require_password new_password)
    require (supplied_new == repeat_password) (Error.authority "new passwords do not match")
    pure (digest, supplied_new)

  unfoldable pub consume_password_reset : String → String → String → String → ℕ → Action String
  consume_password_reset token new_password repeat_password salt now =
      chain (reading (reset_input token new_password repeat_password))
        λ checked. immediate (consume_reset_rows checked.0 checked.1 salt now)
