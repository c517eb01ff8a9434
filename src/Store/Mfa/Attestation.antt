-- ===== src/Store/Mfa/Attestation.antt =====
-- `_consume_mfa_broker_attestation` and `_mint_mfa_step_up`.
use anar_core.Base.{ℕ, ◌+◌, String, none, ◌&&◌, ◌==◌, nat_eq}
use anar_core.Platform.{Platform, seconds}
use anar_core.Database.Rows.{Status, is_open, consume}
use anar_core.Database.Tx.{Tx, Error, ◌>>=◌, ◌>>◌, pure, lift, require, select_one, update, insert}
use anar_core.Database.Schema.{mfa_broker_attestation, mfa_step_up_receipt, step_up_allowed}
use anar_core.Store.Input.{ℤ, require_positive_integer, token_digest}
use anar_core.Store.Challenge.{check_challenge}

abbrev pub attestation_unavailable : Error
attestation_unavailable = Error.authority "MFA attestation unavailable"

pub record StepUpDraws : Type 0 where
  pub step_up_id : String
  pub token : String

module _ ⦃platform : Platform⦄ where
  unfoldable pub consume_mfa_broker_attestation :
      String → String → String → String → String → ℕ → Tx (Unit {0})
  unfolding check_challenge
  consume_mfa_broker_attestation account_id account_session_id authenticator_id token purpose now =
      do
        digest ← lift (token_digest token)
        row ←
            select_one mfa_broker_attestation (λ r. r.token_sha256 == digest)
              attestation_unavailable
        check_challenge attestation_unavailable (Error.authority "MFA attestation consumed")
            (Error.authority "MFA attestation revoked") (Error.authority "MFA attestation expired")
            row.details.expires_at now row
        require (row.account_id == account_id) (Error.authority "MFA attestation account mismatch")
        require (row.details.account_session_id == account_session_id)
            (Error.authority "MFA attestation session mismatch")
        require (row.details.authenticator_id == authenticator_id)
            (Error.authority "MFA attestation authenticator mismatch")
        require (row.details.purpose == purpose)
            (Error.authority "MFA attestation purpose mismatch")
        consumed ←
            update mfa_broker_attestation (λ r. r.challenge_id == row.challenge_id && is_open r)
              (consume now)
        require (nat_eq consumed 1) attestation_unavailable

  unfoldable pub mint_mfa_step_up :
      String → String → String → String → ℤ → StepUpDraws → ℕ → Tx (String × String)
  mint_mfa_step_up account_id account_session_id authenticator_id purpose ttl_seconds draws now = do
    ttl ← lift (require_positive_integer ttl_seconds "MFA step-up TTL" none)
    digest ← lift (token_digest draws.token)
    insert mfa_step_up_receipt step_up_allowed (record {
      challenge_id = draws.step_up_id;
      token_sha256 = digest;
      account_id = account_id;
      consumed_at = none;
      revoked_at = none;
      status = Status.active;
      created_at = now;
      details = record {
        account_session_id = account_session_id;
        authenticator_id = authenticator_id;
        purpose = purpose;
        expires_at = now + seconds ttl;
      };
    })
    pure (draws.step_up_id, draws.token)
