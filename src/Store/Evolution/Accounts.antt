-- ===== src/Store/Evolution/Accounts.antt =====
-- The calls on accounts, their sessions and their factors.
use anar_core.Base.{ℕ, String, Option, List}
use anar_core.Platform.{Platform}
use anar_core.Database.Evolution.Steps.{steps_rules}
use anar_core.Database.Evolution.Tables.{table_rules}
use anar_core.Database.Evolution.Actions.{Advances, advance_rules}
use anar_core.Store.Evolution.Rows.{
  signup_rows-Steps, verify_email_rows-Steps, login_rows-Steps, signout_rows-Steps,
  consume_mfa_broker_attestation-Steps, mint_mfa_step_up-Steps,
  consume_mfa_step_up_for_action-Steps, begin_rows-Steps, complete_rows-Steps, issue_rows-Steps,
  consume_recovery_code-Steps, change_rows-Steps, issue_reset_rows-Steps, consume_reset_rows-Steps,
  request_rows-Steps, consume_email_rows-Steps,
}
use anar_core.Store.Input.{ℤ}
use anar_core.Store.Session.{authenticate_account_session}
use anar_core.Store.Account.Signup.{SignupDraws, signup, verify_email}
use anar_core.Store.Account.Login.{LoginDraws, login}
use anar_core.Store.Account.Signout.{signout}
use anar_core.Store.Mfa.Attestation.{StepUpDraws}
use anar_core.Store.Mfa.StepUp.{consume_mfa_step_up, exchange_mfa_broker_attestation}
use anar_core.Store.Mfa.Enrollment.{begin_totp_enrollment, complete_totp_enrollment}
use anar_core.Store.Mfa.Recovery.{CodeDraw, issue_mfa_recovery_codes, exchange_mfa_recovery_code}
use anar_core.Store.Password.{
  ResetDraws, change_password, issue_password_reset, consume_password_reset,
}
use anar_core.Store.Email.{EmailDraws, request_email_change, consume_email_change}
use anar_core.Store.Identity.{change_display_name, create_identity, create_personal_account}

ruleset call_rules = (
  advance_rules, steps_rules, table_rules, signup_rows-Steps, verify_email_rows-Steps,
  login_rows-Steps, signout_rows-Steps, consume_mfa_broker_attestation-Steps,
  mint_mfa_step_up-Steps, consume_mfa_step_up_for_action-Steps, begin_rows-Steps,
  complete_rows-Steps, issue_rows-Steps, consume_recovery_code-Steps, change_rows-Steps,
  issue_reset_rows-Steps, consume_reset_rows-Steps, request_rows-Steps, consume_email_rows-Steps,
)

module _ ⦃platform : Platform⦄ where
  pub signup-Advances :
      (email : String) (password : String) (name : String) (ttl : ℤ) (draws : SignupDraws) (now : ℕ)
      → Advances (signup email password name ttl draws now)
  unfolding signup
  signup-Advances email password name ttl draws now = search call_rules depth 12

  pub verify_email-Advances : (token : String) (now : ℕ) → Advances (verify_email token now)
  unfolding verify_email
  verify_email-Advances token now = search call_rules depth 12

  pub login-Advances :
      (email : String) (password : String) (ttl : ℤ) (draws : LoginDraws) (rehashed_at : ℕ)
      (now : ℕ)
      → Advances (login email password ttl draws rehashed_at now)
  unfolding login
  login-Advances email password ttl draws rehashed_at now = search call_rules depth 12

  pub authenticate_account_session-Advances :
      (bearer : String) (id : String) (now : ℕ)
      → Advances (authenticate_account_session bearer id now)
  unfolding authenticate_account_session
  authenticate_account_session-Advances bearer id now = search call_rules depth 12

  pub signout-Advances :
      (bearer : String) (id : String) (checked_at : ℕ) (now : ℕ)
      → Advances (signout bearer id checked_at now)
  unfolding signout
  signout-Advances bearer id checked_at now = search call_rules depth 12

  pub change_password-Advances :
      (bearer : String) (id : String) (current : String) (new : String) (repeat : String)
      (token : Option String) (salt : String) (checked_at : ℕ) (now : ℕ)
      → Advances (change_password bearer id current new repeat token salt checked_at now)
  unfolding change_password
  change_password-Advances bearer id current new repeat token salt checked_at now =
      search call_rules depth 12

  pub issue_password_reset-Advances :
      (email : String) (ttl : ℤ) (draws : ResetDraws) (now : ℕ)
      → Advances (issue_password_reset email ttl draws now)
  unfolding issue_password_reset
  issue_password_reset-Advances email ttl draws now = search call_rules depth 12

  pub consume_password_reset-Advances :
      (token : String) (new : String) (repeat : String) (salt : String) (now : ℕ)
      → Advances (consume_password_reset token new repeat salt now)
  unfolding consume_password_reset
  consume_password_reset-Advances token new repeat salt now = search call_rules depth 12

  pub begin_totp_enrollment-Advances :
      (bearer : String) (id : String) (reference : String) (authenticator : String) (checked_at : ℕ)
      (now : ℕ)
      → Advances (begin_totp_enrollment bearer id reference authenticator checked_at now)
  unfolding begin_totp_enrollment
  begin_totp_enrollment-Advances bearer id reference authenticator checked_at now =
      search call_rules depth 12

  pub complete_totp_enrollment-Advances :
      (bearer : String) (id : String) (authenticator : String) (token : String) (checked_at : ℕ)
      (now : ℕ)
      → Advances (complete_totp_enrollment bearer id authenticator token checked_at now)
  unfolding complete_totp_enrollment
  complete_totp_enrollment-Advances bearer id authenticator token checked_at now =
      search call_rules depth 12

  pub issue_mfa_recovery_codes-Advances :
      (bearer : String) (id : String) (count : ℤ) (token : Option String)
      (draws : ℕ → List CodeDraw) (checked_at : ℕ) (now : ℕ)
      → Advances (issue_mfa_recovery_codes bearer id count token draws checked_at now)
  unfolding issue_mfa_recovery_codes
  issue_mfa_recovery_codes-Advances bearer id count token draws checked_at now =
      search call_rules depth 12

  pub exchange_mfa_broker_attestation-Advances :
      (bearer : String) (id : String) (authenticator : String) (token : String) (purpose : String)
      (ttl : ℤ) (draws : StepUpDraws) (checked_at : ℕ) (now : ℕ)
      → Advances (
          exchange_mfa_broker_attestation bearer id authenticator token purpose ttl draws checked_at
            now)
  unfolding exchange_mfa_broker_attestation
  exchange_mfa_broker_attestation-Advances bearer id authenticator token purpose ttl draws
        checked_at now =
      search call_rules depth 12

  pub exchange_mfa_recovery_code-Advances :
      (bearer : String) (id : String) (code : String) (purpose : String) (ttl : ℤ)
      (draws : StepUpDraws) (checked_at : ℕ) (now : ℕ)
      → Advances (exchange_mfa_recovery_code bearer id code purpose ttl draws checked_at now)
  unfolding exchange_mfa_recovery_code
  exchange_mfa_recovery_code-Advances bearer id code purpose ttl draws checked_at now =
      search call_rules depth 12

  pub consume_mfa_step_up-Advances :
      (bearer : String) (id : String) (token : String) (purpose : String) (checked_at : ℕ) (now : ℕ)
      → Advances (consume_mfa_step_up bearer id token purpose checked_at now)
  unfolding consume_mfa_step_up
  consume_mfa_step_up-Advances bearer id token purpose checked_at now = search call_rules depth 12

  pub request_email_change-Advances :
      (bearer : String) (id : String) (password : String) (email : String) (ttl : ℤ)
      (token : Option String) (draws : EmailDraws) (checked_at : ℕ) (now : ℕ)
      → Advances (request_email_change bearer id password email ttl token draws checked_at now)
  unfolding request_email_change
  request_email_change-Advances bearer id password email ttl token draws checked_at now =
      search call_rules depth 12

  pub consume_email_change-Advances :
      (token : String) (now : ℕ) → Advances (consume_email_change token now)
  unfolding consume_email_change
  consume_email_change-Advances token now = search call_rules depth 12

  pub change_display_name-Advances :
      (bearer : String) (id : String) (name : String) (checked_at : ℕ)
      → Advances (change_display_name bearer id name checked_at)
  unfolding change_display_name
  change_display_name-Advances bearer id name checked_at = search call_rules depth 12

  pub create_identity-Advances :
      (name : String) (kind : String) (id : String) (now : ℕ)
      → Advances (create_identity name kind id now)
  unfolding create_identity
  create_identity-Advances name kind id now = search call_rules depth 12

  pub create_personal_account-Advances :
      (identity : String) (account : String) (now : ℕ)
      → Advances (create_personal_account identity account now)
  unfolding create_personal_account
  create_personal_account-Advances identity account now = search call_rules depth 12
