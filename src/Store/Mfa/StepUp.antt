-- ===== src/Store/Mfa/StepUp.antt =====
-- Step-up receipts: `_consume_mfa_step_up_for_action`, `consume_mfa_step_up` and
-- `exchange_mfa_broker_attestation`.
use anar_core.Base.{ℕ, String, ◌&&◌, ◌==◌, not, nat_eq}
use anar_core.Platform.{Platform}
use anar_core.Database.Rows.{is_open, consume}
use anar_core.Database.Tx.{
  Tx, Action, Error, ◌>>=◌, ◌>>◌, pure, lift, gets, require, select_one, or_raise, update,
  immediate, reading, chain,
}
use anar_core.Database.Schema.{mfa_step_up_receipt}
use anar_core.Store.Input.{ℤ, token_digest}
use anar_core.Store.Session.{load_account_session}
use anar_core.Store.Challenge.{check_challenge}
use anar_core.Store.Mfa.Purpose.{require_mfa_purpose, active_mfa_authenticator}
use anar_core.Store.Mfa.Attestation.{StepUpDraws, consume_mfa_broker_attestation, mint_mfa_step_up}

abbrev pub step_up_unavailable : Error
step_up_unavailable = Error.authority "MFA step-up unavailable"

abbrev pub authenticator_required : Error
authenticator_required = Error.authority "active MFA authenticator required"

module _ ⦃platform : Platform⦄ where
  unfoldable pub consume_mfa_step_up_for_action : String → String → String → String → ℕ → Tx String
  unfolding check_challenge
  consume_mfa_step_up_for_action account_id account_session_id step_up_token purpose now = do
    normalized_purpose ← lift (require_mfa_purpose purpose)
    require (not (normalized_purpose == "mfa.enroll"))
        (Error.authority "enrollment cannot consume step-up receipt")
    digest ← lift (token_digest step_up_token)
    receipt ← select_one mfa_step_up_receipt (λ r. r.token_sha256 == digest) step_up_unavailable
    check_challenge step_up_unavailable (Error.authority "MFA step-up consumed")
        (Error.authority "MFA step-up revoked") (Error.authority "MFA step-up expired")
        receipt.details.expires_at now receipt
    require (receipt.account_id == account_id) (Error.authority "MFA step-up account mismatch")
    require (receipt.details.account_session_id == account_session_id)
        (Error.authority "MFA step-up session mismatch")
    require (receipt.details.purpose == normalized_purpose)
        (Error.authority "MFA step-up purpose mismatch")
    found ← gets (active_mfa_authenticator account_id)
    authenticator ← or_raise found authenticator_required
    require (authenticator.authenticator_id == receipt.details.authenticator_id)
        (Error.authority "MFA authenticator mismatch")
    consumed ←
        update mfa_step_up_receipt (λ r. r.challenge_id == receipt.challenge_id && is_open r)
          (consume now)
    require (nat_eq consumed 1) step_up_unavailable
    pure receipt.details.authenticator_id

  unfoldable pub consume_mfa_step_up : String → String → String → String → ℕ → ℕ → Action String
  consume_mfa_step_up bearer account_session_id step_up_token purpose checked_at now =
      chain (reading (load_account_session bearer account_session_id checked_at)) λ account_session.
        immediate (
          consume_mfa_step_up_for_action account_session.account_id account_session_id step_up_token
            purpose now)

  -- The checks of `exchange_mfa_broker_attestation`: the account and the purpose.
  unfoldable pub exchange_checks : String → String → String → String → ℕ → Tx (String × String)
  exchange_checks bearer account_session_id authenticator_id purpose checked_at = do
    account_session ← load_account_session bearer account_session_id checked_at
    normalized_purpose ← lift (require_mfa_purpose purpose)
    require (not (normalized_purpose == "mfa.enroll"))
        (Error.authority "enrollment attestation cannot mint step-up")
    found ← gets (active_mfa_authenticator account_session.account_id)
    authenticator ← or_raise found authenticator_required
    require (authenticator.authenticator_id == authenticator_id)
        (Error.authority "MFA authenticator mismatch")
    pure (account_session.account_id, normalized_purpose)

  unfoldable pub exchange_mfa_broker_attestation :
      String
      → String
      → String
      → String
      → String
      → ℤ
      → StepUpDraws
      → ℕ
      → ℕ
      → Action (String × String)
  exchange_mfa_broker_attestation bearer account_session_id authenticator_id token purpose
        ttl_seconds draws checked_at now =
      chain
        (reading (exchange_checks bearer account_session_id authenticator_id purpose checked_at))
        λ checked. immediate (do
          consume_mfa_broker_attestation checked.0 account_session_id authenticator_id token
              checked.1 now
          mint_mfa_step_up checked.0 account_session_id authenticator_id checked.1 ttl_seconds draws
              now)
