-- ===== src/Store/Email.antt =====
-- `request_email_change` and `consume_email_change`.
use anar_core.Base.{ℕ, ◌+◌, String, Bool, Option, none, some, ◌&&◌, ◌==◌, not, nat_eq, is_null}
use anar_core.Base.Table.{exists_where}
use anar_core.Platform.{Platform, seconds}
use anar_core.Database.Rows.{Status, AccountEmail, is_active, is_open, consume, revoke}
use anar_core.Database.Tx.{
  Tx, Action, Error, ◌>>=◌, ◌>>◌, pure, lift, gets, require, select_one, update, insert, immediate,
  reading, chain,
}
use anar_core.Database.Schema.{
  account_email, password_credential, email_change_challenge, email_change_allowed,
}
use anar_core.Store.Input.{ℤ, normalize_email, require_positive_integer, token_digest}
use anar_core.Store.Challenge.{check_challenge}
use anar_core.Store.Session.{load_account_session}
use anar_core.Store.Cascade.{revoke_account_authority}
use anar_core.Store.Account.Login.{check_verdict}
use anar_core.Store.Password.{credential_unavailable, require_step_up}

abbrev pub email_unavailable : Error
email_unavailable = Error.authority "email unavailable"

abbrev pub email_change_unavailable : Error
email_change_unavailable = Error.authority "email change unavailable"

abbrev pub active_email_unavailable : Error
active_email_unavailable = Error.authority "active email unavailable"

abbrev pub is_verified_email : String → AccountEmail → Bool
is_verified_email account_id r =
    r.account_id == account_id && is_active r.status && not (is_null r.verified_at)

pub record EmailDraws : Type 0 where
  pub email_change_id : String
  pub token : String

-- The checked arguments: account, e-mail, lifetime and digest.
pub record EmailRequest : Type 0 where
  pub account_id : String
  pub email : String
  pub ttl : ℕ
  pub digest : String

module _ ⦃platform : Platform⦄ where
  unfoldable pub request_checks :
      String → String → String → String → ℤ → EmailDraws → ℕ → Tx EmailRequest
  unfolding check_verdict
  request_checks bearer account_session_id current_password proposed_email ttl_seconds draws
        checked_at =
      do
        account_session ← load_account_session bearer account_session_id checked_at
        normalized_email ← lift (normalize_email proposed_email)
        ttl ← lift (require_positive_integer ttl_seconds "email change TTL" none)
        current_email ←
            select_one account_email (is_verified_email account_session.account_id)
              active_email_unavailable
        require (not (current_email.normalized_email == normalized_email))
            (Error.authority "new email must differ from current email")
        credential ←
            select_one password_credential
              (λ c. c.account_id == account_session.account_id && is_active c.status)
              credential_unavailable
        lift (
            check_verdict (Error.authority "current password invalid")
              (platform.verify_password credential.password_hash current_password))
        conflict ← gets (λ db. exists_where (λ r. r.normalized_email == normalized_email) db.emails)
        require (not conflict) email_unavailable
        digest ← lift (token_digest draws.token)
        pure (record {
          account_id = account_session.account_id;
          email = normalized_email;
          ttl = ttl;
          digest = digest;
        })

  unfoldable pub request_rows :
      EmailRequest → String → Option String → EmailDraws → ℕ → Tx (String × String)
  unfolding require_step_up
  request_rows request account_session_id step_up_token draws now = do
    require_step_up request.account_id account_session_id step_up_token "email.change"
        (Error.authority "MFA step-up required for email change") now
    update email_change_challenge (λ r. r.account_id == request.account_id && is_open r)
        (revoke now)
    insert email_change_challenge email_change_allowed (record {
      challenge_id = draws.email_change_id;
      token_sha256 = request.digest;
      account_id = request.account_id;
      consumed_at = none;
      revoked_at = none;
      status = Status.active;
      created_at = now;
      details = record { proposed_email = request.email; expires_at = now + seconds request.ttl };
    })
    pure (draws.email_change_id, draws.token)

  unfoldable pub request_email_change :
      String
      → String
      → String
      → String
      → ℤ
      → Option String
      → EmailDraws
      → ℕ
      → ℕ
      → Action (String × String)
  unfolding request_checks request_rows
  request_email_change bearer account_session_id current_password proposed_email ttl_seconds
        step_up_token draws checked_at now =
      chain
        (reading (
          request_checks bearer account_session_id current_password proposed_email ttl_seconds draws
            checked_at))
        λ request. immediate (request_rows request account_session_id step_up_token draws now)

  -- The UPDATE of `normalized_email` meets its UNIQUE constraint by the test for a conflict, since
  -- an account has one row.
  unfoldable pub consume_email_rows : String → ℕ → Tx String
  unfolding check_challenge
  consume_email_rows digest now = do
    challenge ←
        select_one email_change_challenge (λ r. r.token_sha256 == digest) email_change_unavailable
    check_challenge email_change_unavailable (Error.authority "email change consumed")
        (Error.authority "email change revoked") (Error.authority "email change expired")
        challenge.details.expires_at now challenge
    conflict ← gets (λ db.
        exists_where
          (λ r.
            r.normalized_email == challenge.details.proposed_email
            && not (r.account_id == challenge.account_id))
          db.emails)
    require (not conflict) email_unavailable
    updated ← update account_email (is_verified_email challenge.account_id) (λ r. record r {
      normalized_email = challenge.details.proposed_email;
      verified_at = some now;
      status = Status.active;
    })
    require (nat_eq updated 1) active_email_unavailable
    consumed ←
        update email_change_challenge (λ r. r.challenge_id == challenge.challenge_id && is_open r)
          (consume now)
    require (nat_eq consumed 1) email_change_unavailable
    update email_change_challenge
        (λ r.
          r.account_id == challenge.account_id
          && not (r.challenge_id == challenge.challenge_id)
          && is_open r)
        (revoke now)
    revoke_account_authority challenge.account_id now
    pure challenge.account_id

  unfoldable pub consume_email_change : String → ℕ → Action String
  unfolding consume_email_rows
  consume_email_change token now =
      chain (reading (lift (token_digest token)))
        λ digest. immediate (consume_email_rows digest now)
