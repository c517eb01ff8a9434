-- ===== src/Store/Account/Signup.antt =====
-- `signup` and `verify_email`.
use anar_core.Base.{ℕ, ◌+◌, String, none, some, ◌&&◌, ◌==◌, not, nat_eq, is_null}
use anar_core.Platform.{Platform, seconds}
use anar_core.Database.Rows.{Status, is_pending, is_open, consume}
use anar_core.Database.Tx.{
  Tx, Action, Error, ok, ◌>>=◌, ◌>>◌, pure, lift, require, select_one, update, insert, immediate,
  with_connection, reading, chain, answer, catching_integrity,
}
use anar_core.Database.Schema.{
  identity, personal_account, account_email, password_credential, email_verification_challenge,
  identity_allowed, account_allowed, email_allowed, credential_allowed, verification_allowed,
}
use anar_core.Store.Challenge.{check_challenge}
use anar_core.Store.Input.{
  ℤ, normalize_email, require_password, require_positive_integer, token_digest, is_blank,
}

-- The random values that one call draws.
pub record SignupDraws : Type 0 where
  pub identity_id : String
  pub account_id : String
  pub credential_id : String
  pub email_verification_id : String
  pub verification_token : String
  pub salt : String

-- What the checks of the arguments leave: e-mail, password, display name, lifetime and digest.
pub record SignupInput : Type 0 where
  pub email : String
  pub password : String
  pub name : String
  pub ttl : ℕ
  pub digest : String

abbrev pub verification_unavailable : Error
verification_unavailable = Error.authority "email verification unavailable"

module _ ⦃platform : Platform⦄ where
  unfoldable pub signup_input : String → String → String → ℤ → SignupDraws → Tx SignupInput
  signup_input email password display_name ttl_seconds draws = do
    normalized_email ← lift (normalize_email email)
    supplied_password ← lift (require_password password)
    let name = platform.strip display_name
    require (not (is_blank name)) (Error.authority "display name is required")
    ttl ← lift (require_positive_integer ttl_seconds "email verification TTL" none)
    digest ← lift (token_digest draws.verification_token)
    pure (record {
      email = normalized_email;
      password = supplied_password;
      name = name;
      ttl = ttl;
      digest = digest;
    })

  -- The five INSERT statements.
  unfoldable pub signup_rows : SignupInput → SignupDraws → ℕ → Tx (Unit {0})
  signup_rows input draws now = do
    insert identity identity_allowed (record {
      identity_id = draws.identity_id;
      identity_kind = "human";
      display_name = input.name;
      status = Status.active;
      created_at = now;
    })
    insert personal_account account_allowed (record {
      account_id = draws.account_id;
      identity_id = draws.identity_id;
      status = Status.active;
      created_at = now;
    })
    insert account_email email_allowed (record {
      account_id = draws.account_id;
      normalized_email = input.email;
      verified_at = none;
      status = Status.pending;
      created_at = now;
    })
    insert password_credential credential_allowed (record {
      credential_id = draws.credential_id;
      account_id = draws.account_id;
      password_hash = platform.hash_password draws.salt input.password;
      credential_revision = 1;
      status = Status.active;
      created_at = now;
      updated_at = now;
    })
    insert email_verification_challenge verification_allowed (record {
      challenge_id = draws.email_verification_id;
      token_sha256 = input.digest;
      account_id = draws.account_id;
      consumed_at = none;
      revoked_at = none;
      status = Status.active;
      created_at = now;
      details = record { expires_at = now + seconds input.ttl };
    })

  unfoldable pub signup :
      String → String → String → ℤ → SignupDraws → ℕ → Action (String × String × String × String)
  signup email password display_name ttl_seconds draws now =
      chain (reading (signup_input email password display_name ttl_seconds draws)) λ input.
        chain
          (catching_integrity (Error.authority "email unavailable")
            (with_connection (signup_rows input draws now)))
          λ _. answer (
            ok (
              draws.identity_id, draws.account_id, draws.email_verification_id,
              draws.verification_token,
            ))

  -- The body of `verify_email`'s transaction.
  unfoldable pub verify_email_rows : String → ℕ → Tx String
  unfolding check_challenge
  verify_email_rows digest now = do
    challenge ←
        select_one email_verification_challenge (λ r. r.token_sha256 == digest)
          verification_unavailable
    check_challenge verification_unavailable (Error.authority "email verification consumed")
        (Error.authority "email verification revoked")
        (Error.authority "email verification expired") challenge.details.expires_at now challenge
    updated_email ←
        update account_email
          (λ r.
            r.account_id == challenge.account_id && is_pending r.status && is_null r.verified_at)
          (λ r. record r { verified_at = some now; status = Status.active })
    require (nat_eq updated_email 1) verification_unavailable
    consumed ←
        update email_verification_challenge
          (λ r. r.challenge_id == challenge.challenge_id && is_open r) (consume now)
    require (nat_eq consumed 1) verification_unavailable
    pure challenge.account_id

  unfoldable pub verify_email : String → ℕ → Action String
  verify_email token now =
      chain (reading (lift (token_digest token))) λ digest. immediate (verify_email_rows digest now)
