-- ===== src/Store/Mfa/Recovery.antt =====
-- `issue_mfa_recovery_codes` and `exchange_mfa_recovery_code`.
use anar_core.Base.{
  ℕ, String, Bool, Option, none, some, ◌&&◌, ◌==◌, not, nat_eq, ltb, is_null, List, [], ◌∷◌, map,
}
use anar_core.Base.Table.{count_where}
use anar_core.Platform.{Platform}
use anar_core.Database.Rows.{Status, is_active, is_open, consume, revoke}
use anar_core.Database.Tx.{
  Tx, Action, Error, ◌>>=◌, ◌>>◌, pure, raise, lift, gets, require, select_one, or_raise, update,
  insert, when, immediate, reading, chain,
}
use anar_core.Database.Schema.{mfa_recovery_code, mfa_step_up_receipt, recovery_code_allowed}
use anar_core.Store.Input.{ℤ, require_positive_integer, token_digest}
use anar_core.Store.Session.{load_account_session}
use anar_core.Store.Challenge.{check_challenge}
use anar_core.Store.Mfa.Purpose.{require_mfa_purpose, active_mfa_authenticator}
use anar_core.Store.Mfa.Attestation.{StepUpDraws, mint_mfa_step_up}
use anar_core.Store.Mfa.StepUp.{step_up_unavailable, authenticator_required}

-- A recovery code to be issued, with the identifier of its row.
pub record CodeDraw : Type 0 where
  pub recovery_code_id : String
  pub code : String

-- `if not step_up_token: raise`
unfoldable pub supplied_token : Option String → Error → Tx String
supplied_token none e = raise e
supplied_token (some t) e = require (not (t == "")) e >> pure t

abbrev pub recovery_unavailable : Error
recovery_unavailable = Error.authority "MFA recovery code unavailable"

module _ ⦃platform : Platform⦄ where
  -- The step-up receipt that a rotation takes, checked and consumed in place.
  unfoldable pub consume_rotation_receipt :
      String → String → String → Option String → ℕ → Tx (Unit {0})
  unfolding check_challenge
  consume_rotation_receipt account_id account_session_id authenticator_id step_up_token now = do
    token ←
        supplied_token step_up_token
          (Error.authority "MFA step-up required for recovery code rotation")
    digest ← lift (token_digest token)
    receipt ← select_one mfa_step_up_receipt (λ r. r.token_sha256 == digest) step_up_unavailable
    check_challenge step_up_unavailable (Error.authority "MFA step-up consumed")
        (Error.authority "MFA step-up revoked") (Error.authority "MFA step-up expired")
        receipt.details.expires_at now receipt
    require (receipt.account_id == account_id) (Error.authority "MFA step-up account mismatch")
    require (receipt.details.account_session_id == account_session_id)
        (Error.authority "MFA step-up session mismatch")
    require (receipt.details.purpose == "mfa.recovery.rotate")
        (Error.authority "MFA step-up purpose mismatch")
    require (receipt.details.authenticator_id == authenticator_id)
        (Error.authority "MFA authenticator mismatch")
    consumed ←
        update mfa_step_up_receipt (λ r. r.challenge_id == receipt.challenge_id && is_open r)
          (consume now)
    require (nat_eq consumed 1) step_up_unavailable

  unfoldable pub insert_codes : String → List CodeDraw → ℕ → Tx (Unit {0})
  insert_codes account_id [] now = pure tt
  insert_codes account_id (draw ∷ rest) now =
      (do
        digest ← lift (token_digest draw.code)
        insert mfa_recovery_code recovery_code_allowed (record {
          challenge_id = draw.recovery_code_id;
          token_sha256 = digest;
          account_id = account_id;
          consumed_at = none;
          revoked_at = none;
          status = Status.active;
          created_at = now;
          details = record {};
        }))
      >> insert_codes account_id rest now

  -- The account, the authenticator, and whether codes have been issued before.
  unfoldable pub issue_checks : String → String → ℤ → ℕ → Tx (ℕ × String × String × Bool)
  issue_checks bearer account_session_id count checked_at = do
    account_session ← load_account_session bearer account_session_id checked_at
    n ← lift (require_positive_integer count "MFA recovery code count" (some 20))
    found ← gets (active_mfa_authenticator account_session.account_id)
    authenticator ← or_raise found authenticator_required
    total ←
        gets (λ db. count_where (λ r. r.account_id == account_session.account_id) db.recovery_codes)
    pure (n, account_session.account_id, authenticator.authenticator_id, ltb 0 total)

  unfoldable pub issue_rows :
      String → String → String → Bool → Option String → List CodeDraw → ℕ → Tx (List String)
  issue_rows account_id account_session_id authenticator_id rotation_required step_up_token draws
        now =
      do
        when rotation_required (
            consume_rotation_receipt account_id account_session_id authenticator_id step_up_token
              now)
        update mfa_recovery_code (λ r. r.account_id == account_id && is_open r) (revoke now)
        insert_codes account_id draws now
        pure (map (λ (d : CodeDraw). d.code) draws)

  -- The draws are those of a generator: as many as the count that passed the check.
  unfoldable pub issue_mfa_recovery_codes :
      String → String → ℤ → Option String → (ℕ → List CodeDraw) → ℕ → ℕ → Action (List String)
  issue_mfa_recovery_codes bearer account_session_id count step_up_token draws checked_at now =
      chain (reading (issue_checks bearer account_session_id count checked_at)) λ checked.
        immediate (
          issue_rows checked.1 account_session_id checked.2 checked.3 step_up_token
            (draws checked.0) now)

  -- The checks of `exchange_mfa_recovery_code`: account, authenticator, purpose and digest.
  unfoldable pub recovery_checks :
      String → String → String → String → ℕ → Tx (String × String × String × String)
  recovery_checks bearer account_session_id recovery_code purpose checked_at = do
    account_session ← load_account_session bearer account_session_id checked_at
    normalized_purpose ← lift (require_mfa_purpose purpose)
    require (not (normalized_purpose == "mfa.enroll"))
        (Error.authority "recovery code cannot authorize enrollment")
    found ← gets (active_mfa_authenticator account_session.account_id)
    authenticator ← or_raise found authenticator_required
    digest ← lift (token_digest recovery_code)
    pure (account_session.account_id, authenticator.authenticator_id, normalized_purpose, digest)

  unfoldable pub consume_recovery_code : String → String → ℕ → Tx (Unit {0})
  consume_recovery_code account_id digest now = do
    recovery ←
        select_one mfa_recovery_code (λ r. r.token_sha256 == digest && r.account_id == account_id)
          recovery_unavailable
    require (is_active recovery.status) recovery_unavailable
    require (is_null recovery.consumed_at) (Error.authority "MFA recovery code consumed")
    require (is_null recovery.revoked_at) (Error.authority "MFA recovery code revoked")
    consumed ←
        update mfa_recovery_code (λ r. r.challenge_id == recovery.challenge_id && is_open r)
          (consume now)
    require (nat_eq consumed 1) recovery_unavailable

  unfoldable pub exchange_mfa_recovery_code :
      String → String → String → String → ℤ → StepUpDraws → ℕ → ℕ → Action (String × String)
  exchange_mfa_recovery_code bearer account_session_id recovery_code purpose ttl_seconds draws
        checked_at now =
      chain (reading (recovery_checks bearer account_session_id recovery_code purpose checked_at))
        λ checked. immediate (do
          consume_recovery_code checked.0 checked.3 now
          mint_mfa_step_up checked.0 account_session_id checked.1 checked.2 ttl_seconds draws now)
